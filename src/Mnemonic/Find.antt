-- ===== src/Mnemonic/Find.antt =====
-- The search in the word list (ios/Classes/bip39.c, data_from_mnemonic): every word is found at
-- its own index.
use flutter_sdk.Base.{ℕ, zero, suc, ◌+◌, ◌-◌, ◌*◌, ◌^◌, ◌<◌, ◌≤◌, ◌≡◌, refl, arith, ap}
use flutter_sdk.Base.{List, [], ◌∷◌, Bool, true, ◌&&◌, ltb, leb, ◌==◌, not}
use flutter_sdk.Base.{Bool-cases, inl, inr, length, get_or, some, ◌≢◌}
use flutter_sdk.Mnemonic.English.{wordlist}
use flutter_sdk.Mnemonic.{str_eq, find_word}

pub str_eq_refl : (a : List ℕ) → str_eq a a ≡ true
unfolding str_eq
str_eq_refl [] = refl
str_eq_refl (x ∷ xs) = ground (arith, str_eq_refl xs)

pub str_eq→eq : (a b : List ℕ) → str_eq a b ≡ true → a ≡ b
unfolding str_eq
str_eq→eq [] [] h = refl
str_eq→eq [] (b ∷ bs) h = ground arith
str_eq→eq (a ∷ as_) [] h = ground arith
str_eq→eq (a ∷ as_) (b ∷ bs) h = ground (arith, str_eq→eq as_ bs)

-- A number for a word, its letters being the digits to the base 32.
rank : ℕ → List ℕ → ℕ
rank zero w = 0
rank (suc n) [] = 0
rank (suc n) (c ∷ cs) = (c - 96) * 32 ^ n + rank n cs

-- Every character is none of the space and the terminator.
abbrev pub HasNoSpace : List ℕ → Type 0
HasNoSpace [] = Unit {0}
HasNoSpace (c ∷ cs) = (c ≢ 32) × HasNoSpace cs

-- What data_from_mnemonic relies on in a word: it is not empty, fits current_word, has no space.
pub record IsWord (w : List ℕ) : Type 0 where
  pub not_empty : 1 ≤ length w
  pub fits : length w ≤ 9
  pub no_space : HasNoSpace w

no_space : List ℕ → Bool
no_space [] = true
no_space (c ∷ cs) = not (c == 32) && no_space cs

no_space_sound : (w : List ℕ) → no_space w ≡ true → HasNoSpace w
unfolding no_space
no_space_sound [] h = tt
no_space_sound (c ∷ cs) h = (ground arith, no_space_sound cs (ground arith))

-- The ranks grow from `low` on, and every word is one.
well_ordered : ℕ → List (List ℕ) → Bool
well_ordered low [] = true
well_ordered low (w ∷ ws) =
    ltb low (rank 8 w)
    && leb 1 (length w)
    && leb (length w) 9
    && no_space w
    && well_ordered (rank 8 w) ws

wordlist_ordered : well_ordered 0 wordlist ≡ true
unfolding well_ordered rank no_space wordlist
wordlist_ordered = refl

length-wordlist : length wordlist ≡ 2048
unfolding wordlist
length-wordlist = refl

-- The rank of every word of the list is above `low`.
rank-above :
    (low : ℕ) (ws : List (List ℕ)) (k : ℕ)
    → well_ordered low ws ≡ true
    → k < length ws
    → low < rank 8 (get_or ws k [])
unfolding well_ordered
rank-above low [] k h lt = absurd (omega arith)
rank-above low (w ∷ ws) zero h lt = ground arith
rank-above low (w ∷ ws) (suc k) h lt = ground (arith, rank-above (rank 8 w) ws k)

IsWord-get :
    (low : ℕ) (ws : List (List ℕ)) (k : ℕ)
    → well_ordered low ws ≡ true
    → k < length ws
    → IsWord (get_or ws k [])
unfolding well_ordered
IsWord-get low [] k h lt = absurd (omega arith)
IsWord-get low (w ∷ ws) zero h lt = record {
  not_empty = ground arith;
  fits = ground arith;
  no_space = no_space_sound w (ground arith);
}
IsWord-get low (w ∷ ws) (suc k) h lt = IsWord-get (rank 8 w) ws k (ground arith) (omega arith)

find_word-get :
    (low : ℕ) (ws : List (List ℕ)) (k j r : ℕ)
    → well_ordered low ws ≡ true
    → k < length ws
    → r ≡ j + k
    → find_word (get_or ws k []) j ws ≡ some r
unfolding find_word well_ordered
find_word-get low [] k j r h lt e = absurd (omega arith)
find_word-get low (w ∷ ws) zero j r h lt e =
    let here : r ≡ j = omega arith in rw (str_eq_refl w, here)
find_word-get low (w ∷ ws) (suc k) j r h lt e = elim (Bool-cases (str_eq (get_or ws k []) w)) [
  | inl same ↦
      let above : rank 8 w < rank 8 (get_or ws k []) =
        rank-above (rank 8 w) ws k (ground arith) (omega arith) in
      let equal : get_or ws k [] ≡ w = str_eq→eq _ _ same in
      absurd (omega (arith, ap (rank 8) equal))
  | inr other ↦
      rw other (find_word-get (rank 8 w) ws k (j + 1) r (ground arith) (omega arith) (omega arith))
]

pub wordlist-IsWord : (k : ℕ) → k < 2048 → IsWord (get_or wordlist k [])
wordlist-IsWord k h = IsWord-get 0 wordlist k wordlist_ordered (rw length-wordlist h)

pub find_word-wordlist : (k : ℕ) → k < 2048 → find_word (get_or wordlist k []) 0 wordlist ≡ some k
find_word-wordlist k h =
    find_word-get 0 wordlist k 0 k wordlist_ordered (rw length-wordlist h) (omega arith)
