-- ===== src/Hmac/Tests.antt =====
-- The theorems on ios/Classes/hmac.c and pbkdf2.c at concrete inputs.
use flutter_sdk.Base.{◌≡◌, refl, arith, [], codes}
use flutter_sdk.Hash.{sha256_of, resume, reverse32, reverse64}
use flutter_sdk.Hash.Laws.{sha256-HasShape}
use flutter_sdk.Hash.Zero.{zero_functions, zero_sha256-IsSha}
use flutter_sdk.Hmac.{hmac, hmac_prepare}
use flutter_sdk.Hmac.Prepare.{hmac_prepare-hmac}

reversed : (reverse32 0x01020304 ≡ 0x04030201) × (reverse64 0x0102030405060708 ≡ 0x0807060504030201)
unfolding reverse32 reverse64
reversed = (refl, refl)

hmac_prepare-hmac_example :
    let f = zero_functions 32 in
    let h = sha256_of f in
    f.final (
      f.update
        (resume h (hmac_prepare h (codes "key")).0 [])
        (f.final (f.update (resume h (hmac_prepare h (codes "key")).1 []) (codes "message"))))
    ≡ hmac h (codes "key") (codes "message")
hmac_prepare-hmac_example =
    hmac_prepare-hmac (sha256_of (zero_functions 32)) (sha256-HasShape (zero_functions 32))
      zero_sha256-IsSha (codes "key") (omega arith) (codes "message") [] []
