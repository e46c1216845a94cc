-- ===== src/Mnemonic/English.antt =====
-- The word list of ios/Classes/bip39_english.h.
mod Front
mod Back
use Front.{words_0, words_256, words_512, words_768}
use Back.{words_1024, words_1280, words_1536, words_1792}
use flutter_sdk.Base.{ℕ, zero, suc, ◌+◌, ◌-◌, ◌*◌, ◌<◌, ◌≤◌, ◌≡◌, refl, arith, List, [], ◌∷◌, ◌++◌}
use flutter_sdk.Base.{Bool, true, false, ◌&&◌, ltb, leb, ◌==◌, not, length, get_or, codes, map}

-- A C string is the list of its characters, without the terminator.
unfoldable pub wordlist : List (List ℕ)
unfolding words_0 words_256 words_512 words_768 words_1024 words_1280 words_1536 words_1792
wordlist = map codes (
    words_0 ++ words_256 ++ words_512 ++ words_768 ++ words_1024 ++ words_1280 ++ words_1536
    ++ words_1792)
