-- ===== src/Mnemonic/Tests.antt =====
-- Runs of ios/Classes/bip39.c, and its theorems at concrete inputs.
use flutter_sdk.Base.{ℕ, ◌≡◌, ◌≢◌, ◌<◌, refl, arith, List, [], ◌∷◌, ◌++◌, some, codes, replicate}
use flutter_sdk.Base.{get_or, take, inl, inr, length}
use flutter_sdk.Mnemonic.{mnemonic_from_data, data_from_mnemonic, mnemonic_check, mnemonic_generate}
use flutter_sdk.Mnemonic.{words_loop, unfinished}
use flutter_sdk.Mnemonic.English.{wordlist}
use flutter_sdk.Mnemonic.RoundTrip.{data_from_mnemonic-mnemonic_from_data}
use flutter_sdk.Mnemonic.Check.{mnemonic_check-mnemonic_generate, mnemonic_check-refuses}
use flutter_sdk.Mnemonic.Finish.{words_loop-finishes}

-- A hash that answers as SHA-256 does on sixteen zeros.
abbrev digest : List ℕ → List ℕ
digest bytes = 0x37 ∷ replicate 31 0

digest_first : (m : List ℕ) → get_or (digest m) 0 0 < 256
digest_first m = omega arith

abbrev about : List ℕ
about =
    codes
      "abandon abandon abandon abandon abandon abandon abandon abandon abandon abandon abandon about"

from_zeros : mnemonic_from_data digest (replicate 16 0) 16 ≡ some about
unfolding mnemonic_from_data wordlist
from_zeros = refl

back_to_zeros :
    data_from_mnemonic digest (some about) [] ≡ (16, replicate 16 0 ++ 0x30 ∷ replicate 48 0)
unfolding data_from_mnemonic wordlist
back_to_zeros = refl

two_spaces : mnemonic_check digest [] (some (codes "abandon  about")) ≡ 0
unfolding mnemonic_check wordlist
two_spaces = refl

abbrev some_bytes : List ℕ
some_bytes =
    1 ∷ 2 ∷ 3 ∷ 4 ∷ 5 ∷ 6 ∷ 7 ∷ 8 ∷ 255 ∷ 254 ∷ 253 ∷ 252 ∷ 16 ∷ 32 ∷ 64 ∷ 128 ∷ 17 ∷ 34 ∷ 68 ∷ 136
    ∷ 0 ∷ 99 ∷ 100 ∷ 101 ∷ 200 ∷ 201 ∷ 202 ∷ 203 ∷ 204 ∷ 205 ∷ 206 ∷ 207 ∷ []

data_from_mnemonic-mnemonic_from_data_example :
    (text : List ℕ) × (mnemonic_from_data digest some_bytes 24 ≡ some text)
    × ((data_from_mnemonic digest (some text) []).0 ≡ 24)
    × (take 24 (data_from_mnemonic digest (some text) []).1 ≡ take 24 some_bytes)
data_from_mnemonic-mnemonic_from_data_example =
    data_from_mnemonic-mnemonic_from_data digest some_bytes 24 [] digest_first (inr (inl refl))
      (omega arith) (omega arith)

mnemonic_check-mnemonic_generate_example :
    mnemonic_check digest [] (mnemonic_generate digest some_bytes 256) ≡ 1
mnemonic_check-mnemonic_generate_example =
    mnemonic_check-mnemonic_generate digest some_bytes 256 [] digest_first (inr (inr refl)) refl
      (omega arith)

mnemonic_check-refuses_example :
    (text : List ℕ) × (mnemonic_from_data digest some_bytes 20 ≡ some text)
    × (mnemonic_check digest [] (some text) ≡ 0)
mnemonic_check-refuses_example = mnemonic_check-refuses digest some_bytes 20 [] (inl refl)

words_loop-finishes_example : words_loop (length about) about (replicate 65 0) 0 ≢ unfinished
words_loop-finishes_example =
    words_loop-finishes (length about) about (replicate 65 0) 0 (omega arith)
