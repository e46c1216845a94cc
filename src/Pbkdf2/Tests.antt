-- ===== src/Pbkdf2/Tests.antt =====
-- The theorems on ios/Classes/pbkdf2.c at concrete inputs.
use flutter_sdk.Base.{◌≡◌, arith, [], codes}
use flutter_sdk.Hash.{sha512_of}
use flutter_sdk.Hash.Laws.{sha512-HasShape}
use flutter_sdk.Hash.Zero.{zero_functions, zero_sha512-IsSha}
use flutter_sdk.Pbkdf2.{pbkdf2_init, pbkdf2_update, pbkdf2}
use flutter_sdk.Pbkdf2.Rounds.{pbkdf2_t, pbkdf2_lem, pbkdf2_update-pieces}

pbkdf2_lem_example :
    pbkdf2 (sha512_of (zero_functions 64)) [] (codes "password") (codes "salt") 3
    ≡ pbkdf2_t (sha512_of (zero_functions 64)) (codes "password") (codes "salt") 2
pbkdf2_lem_example =
    pbkdf2_lem (sha512_of (zero_functions 64)) [] (codes "password") (codes "salt") 2
      (sha512-HasShape (zero_functions 64)) zero_sha512-IsSha (omega arith)

pbkdf2_update-pieces_example :
    let h = sha512_of (zero_functions 64) in
    pbkdf2_update h (pbkdf2_update h (pbkdf2_init h [] (codes "password") (codes "salt")) 2) 3
    ≡ pbkdf2_update h (pbkdf2_init h [] (codes "password") (codes "salt")) 5
pbkdf2_update-pieces_example =
    pbkdf2_update-pieces (sha512_of (zero_functions 64)) [] (codes "password") (codes "salt") 1 3
      (sha512-HasShape (zero_functions 64)) zero_sha512-IsSha (omega arith)
