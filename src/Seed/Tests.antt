-- ===== src/Seed/Tests.antt =====
-- The theorems on mnemonic_to_seed of ios/Classes/bip39.c at concrete inputs.
use flutter_sdk.Base.{◌≡◌, arith, List, [], ◌∷◌, codes, true, false, map, some}
use flutter_sdk.Hash.Zero.{zero_functions, zero_sha512-IsSha}
use flutter_sdk.Seed.{empty_cache}
use flutter_sdk.Seed.Cache.{bip39_seed, Request, run_seeds, run_seeds-bip39_seed}

abbrev requests : List Request
requests =
    record { mnemonic = codes "zoo"; passphrase = []; has_callback = true; buffer = [] }
    ∷ record { mnemonic = codes "zoo"; passphrase = codes "x"; has_callback = false; buffer = [] }
    ∷ record { mnemonic = codes "zoo"; passphrase = []; has_callback = false; buffer = [] }
    ∷ []

run_seeds-bip39_seed_example :
    run_seeds (zero_functions 64) empty_cache requests
    ≡ some (map (λ r. bip39_seed (zero_functions 64) r.mnemonic r.passphrase) requests)
run_seeds-bip39_seed_example =
    run_seeds-bip39_seed (zero_functions 64) requests zero_sha512-IsSha (omega arith)
