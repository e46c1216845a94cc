-- ===== src/Seed/Cache.antt =====
-- The cache of mnemonic_to_seed (ios/Classes/bip39.c) cannot be seen in the seeds.
use flutter_sdk.Base.{ℕ, zero, suc, ◌+◌, ◌*◌, ◌≡◌, refl, arith, ap, ap₂, ◌∙◌}
use flutter_sdk.Base.{List, [], ◌∷◌, ◌++◌, Bool, true, ◌&&◌, some, Option-cases}
use flutter_sdk.Base.{
  ◌≤◌, Option, leb, ◌>>=◌, ltb, length, codes, AllBelow, Bool-cases, inl, inr, map,
}
use flutter_sdk.Mnemonic.{str_eq}
use flutter_sdk.Mnemonic.Find.{str_eq→eq}
use flutter_sdk.Hash.{Functions, Sha, sha512_of}
use flutter_sdk.Hash.Laws.{IsSha, sha512-HasShape}
use flutter_sdk.Pbkdf2.{PbkdfCtx, pbkdf2_init, pbkdf2_update, pbkdf2_final}
use flutter_sdk.Pbkdf2.Rounds.{pbkdf2_t, state_after, started_lem, later_update, final_lem}
use flutter_sdk.Seed.{CacheEntry, SeedCache, find_seed, update_loop, derive_seed, set_entry}
use flutter_sdk.Seed.{store_seed, SeedResult, mnemonic_to_seed, empty_cache, found_or}

-- The seed of BIP 39: PBKDF2 with 2048 iterations, the salt being "mnemonic" and the passphrase.
abbrev pub bip39_seed : Functions → List ℕ → List ℕ → List ℕ
bip39_seed fs mnemonic passphrase =
    pbkdf2_t (sha512_of fs) mnemonic (codes "mnemonic" ++ passphrase) 2047

update_loop-step :
    (h : Sha) (n i : ℕ) (c : PbkdfCtx)
    → (update_loop h (suc n) i c).0 ≡ (update_loop h n (i + 1) (pbkdf2_update h c 128)).0
unfolding update_loop
update_loop-step h n i c = refl

module _ (fs : Functions) (sha : IsSha (sha512_of fs)) (mnemonic salt : List ℕ)
    (all : AllBelow 256 mnemonic) where
  abbrev h : Sha
  h = sha512_of fs

  -- Sixteen calls of Update for 128 iterations each.
  update_loop-state :
      (n i m : ℕ)
      → (update_loop h n i (state_after h (sha512-HasShape fs) sha mnemonic all salt m)).0
        ≡ state_after h (sha512-HasShape fs) sha mnemonic all salt (m + n * 128)
  unfolding update_loop
  update_loop-state zero i m =
      ap (state_after h (sha512-HasShape fs) sha mnemonic all salt) (omega arith)
  update_loop-state (suc n) i m =
      ap (λ c. (update_loop h n (i + 1) c).0)
        (later_update h (sha512-HasShape fs) sha mnemonic all salt m 128)
      ∙ update_loop-state n (i + 1) (m + 128)
      ∙ ap (state_after h (sha512-HasShape fs) sha mnemonic all salt) (omega arith)

  update_loop-first :
      (buffer : List ℕ)
      → pbkdf2_final h (update_loop h 16 0 (pbkdf2_init h buffer mnemonic salt)).0
        ≡ pbkdf2_t h mnemonic salt 2047
  update_loop-first buffer =
      ap (pbkdf2_final h) (
        update_loop-step h 15 0 (pbkdf2_init h buffer mnemonic salt)
        ∙ ap (λ c. (update_loop h 15 1 c).0)
            (started_lem h (sha512-HasShape fs) sha mnemonic all salt buffer 127)
        ∙ update_loop-state 15 1 127)
      ∙ final_lem h (sha512-HasShape fs) sha mnemonic all salt 2047

-- Every entry that is set holds the seed of its mnemonic and passphrase.
abbrev HoldsSeeds : Functions → List CacheEntry → Type 0
HoldsSeeds fs [] = Unit {0}
HoldsSeeds fs (e ∷ es) =
    (e.is_set ≡ true → e.seed ≡ bip39_seed fs e.mnemonic e.passphrase) × HoldsSeeds fs es

find_seed-HoldsSeeds :
    (fs : Functions) (es : List CacheEntry) (m p seed : List ℕ)
    → HoldsSeeds fs es
    → find_seed es m p ≡ some seed
    → seed ≡ bip39_seed fs m p
unfolding find_seed
find_seed-HoldsSeeds fs [] m p seed holds found = cc
find_seed-HoldsSeeds fs (e ∷ es) m p seed holds found =
    elim (Bool-cases (e.is_set && str_eq e.mnemonic m && str_eq e.passphrase p)) [
      | inl hit ↦
          let seeds : some e.seed ≡ some seed = rw hit at found in
          let same : seed ≡ e.seed = cc in
          let set : e.is_set ≡ true = ground arith in
          let text : e.mnemonic ≡ m = str_eq→eq e.mnemonic m (ground arith) in
          let pass : e.passphrase ≡ p = str_eq→eq e.passphrase p (ground arith) in
          same ∙ holds.0 set ∙ ap₂ (bip39_seed fs) text pass
      | inr miss ↦ find_seed-HoldsSeeds fs es m p seed holds.1 (rw miss at found)
    ]

set_entry-HoldsSeeds :
    (fs : Functions) (es : List CacheEntry) (i : ℕ) (m p seed : List ℕ)
    → HoldsSeeds fs es
    → seed ≡ bip39_seed fs m p
    → HoldsSeeds fs
        (set_entry es i (record { is_set = true; mnemonic = m; passphrase = p; seed = seed }))
unfolding set_entry
set_entry-HoldsSeeds fs [] i m p seed holds right = tt
set_entry-HoldsSeeds fs (e ∷ es) zero m p seed holds right = ((λ _. right), holds.1)
set_entry-HoldsSeeds fs (e ∷ es) (suc i) m p seed holds right =
    (holds.0, set_entry-HoldsSeeds fs es i m p seed holds.1 right)

-- The seed is that of BIP 39 whether it comes from the cache or not, and what the cache then holds
-- is right again.
pub mnemonic_to_seed-bip39_seed :
    (fs : Functions) (buffer : List ℕ) (cache : SeedCache) (m p : List ℕ) (has_callback : Bool)
    → IsSha (sha512_of fs)
    → AllBelow 256 m
    → length p ≤ 256
    → HoldsSeeds fs cache.entries
    → (result : SeedResult) × (mnemonic_to_seed fs buffer cache m p has_callback ≡ some result)
      × (result.seed ≡ bip39_seed fs m p)
      × HoldsSeeds fs result.cache.entries
unfolding mnemonic_to_seed derive_seed store_seed found_or
mnemonic_to_seed-bip39_seed fs buffer cache m p has_callback sha all room holds =
    let fresh = update_loop-first fs sha m (codes "mnemonic" ++ p) all buffer in
    let fits_salt : leb (length p) 256 ≡ true = ground arith in
    elim (Bool-cases (ltb (length m) 256 && ltb (length p) 64)) [
      | inr long ↦ rw (fits_salt, long) (_, refl, fresh, holds)
      | inl fits ↦ elim (Option-cases (find_seed cache.entries m p)) [
        | inl missed ↦
            rw (fits_salt, fits, missed)
              (_, refl, fresh, set_entry-HoldsSeeds fs cache.entries cache.index m p _ holds fresh)
        | inr (seed, found) ↦
            rw (fits, found)
              (_, refl, find_seed-HoldsSeeds fs cache.entries m p seed holds found, holds)
      ]
    ]

-- A program's calls, one after another: what is asked, and what stands in the buffer by chance.
pub record Request : Type 0 where
  pub mnemonic : List ℕ
  pub passphrase : List ℕ
  pub has_callback : Bool
  pub buffer : List ℕ

-- The seeds of a sequence of calls; none where one of them writes past its array.
pub run_seeds : Functions → SeedCache → List Request → Option (List (List ℕ))
run_seeds fs cache [] = some []
run_seeds fs cache (r ∷ rs) = do
  result ← mnemonic_to_seed fs r.buffer cache r.mnemonic r.passphrase r.has_callback
  seeds ← run_seeds fs result.cache rs
  some (result.seed ∷ seeds)

-- The mnemonics are bytes, and the passphrases have at most 256 characters.
abbrev pub AreAllowed : List Request → Type 0
AreAllowed [] = Unit {0}
AreAllowed (r ∷ rs) = AllBelow 256 r.mnemonic × (length r.passphrase ≤ 256) × AreAllowed rs

run_seeds-HoldsSeeds :
    (fs : Functions) (cache : SeedCache) (rs : List Request)
    → IsSha (sha512_of fs)
    → AreAllowed rs
    → HoldsSeeds fs cache.entries
    → run_seeds fs cache rs ≡ some (map (λ r. bip39_seed fs r.mnemonic r.passphrase) rs)
unfolding run_seeds
run_seeds-HoldsSeeds fs cache [] sha allowed holds = refl
run_seeds-HoldsSeeds fs cache (r ∷ rs) sha allowed holds =
    let (result, done, right, kept) =
      mnemonic_to_seed-bip39_seed fs r.buffer cache r.mnemonic r.passphrase r.has_callback sha
        allowed.0 allowed.1 holds in
    let later = run_seeds-HoldsSeeds fs result.cache rs sha allowed.2 kept in
    rw (done, later, right) refl

-- From the empty cache on, every sequence of calls of mnemonic_to_seed with passphrases of at most
-- 256 characters writes inside of the array salt and gives the seeds of BIP 39: the cache, which
-- keeps four of them, makes no difference. The hash is a SHA-512, and the mnemonics are bytes.
pub run_seeds-bip39_seed :
    (fs : Functions) (rs : List Request)
    → IsSha (sha512_of fs)
    → AreAllowed rs
    → run_seeds fs empty_cache rs ≡ some (map (λ r. bip39_seed fs r.mnemonic r.passphrase) rs)
run_seeds-bip39_seed fs rs sha allowed =
    run_seeds-HoldsSeeds fs empty_cache rs sha allowed
      ((λ e. cc), ((λ e. cc), ((λ e. cc), ((λ e. cc), tt))))
