-- ===== src/Seed.antt =====
-- mnemonic_to_seed of ios/Classes/bip39.c with its cache (USE_BIP39_CACHE). A call takes the static
-- cache and returns it with the seed and the calls of progress_callback. The salt is an array of
-- 8 + 256 bytes, and a passphrase of more than 256 characters is copied past it ("or code may crash"):
-- the functions then give none.
pub mod Cache
mod Tests
use flutter_sdk.Base.{
  ℕ, zero, suc, ◌+◌, ◌*◌, ◌/◌, ◌%◌, List, [], ◌∷◌, ◌++◌, Bool, true, false, ◌&&◌, leb, ◌>>=◌,
}
use flutter_sdk.Base.{Option, none, some, ltb, length, if◌then◌else◌, codes}
use flutter_sdk.Mnemonic.{str_eq}
use flutter_sdk.Hash.{Functions, Sha, sha512_of}
use flutter_sdk.Pbkdf2.{PbkdfCtx, pbkdf2_init, pbkdf2_update, pbkdf2_final}

-- An element of bip39_cache.
pub record CacheEntry : Type 0 where
  pub is_set : Bool
  pub mnemonic : List ℕ
  pub passphrase : List ℕ
  pub seed : List ℕ

-- bip39_cache_index and bip39_cache.
pub record SeedCache : Type 0 where
  pub index : ℕ
  pub entries : List CacheEntry

abbrev pub unset_entry : CacheEntry
unset_entry = record { is_set = false; mnemonic = []; passphrase = []; seed = [] }

-- The static variables at the start; BIP39_CACHE_SIZE is 4.
abbrev pub empty_cache : SeedCache
empty_cache = record {
  index = 0;
  entries = unset_entry ∷ unset_entry ∷ unset_entry ∷ unset_entry ∷ [];
}

-- The loop over the cache, with its three reasons to continue.
unfoldable pub find_seed : List CacheEntry → List ℕ → List ℕ → Option (List ℕ)
find_seed [] mnemonic passphrase = none
find_seed (e ∷ es) mnemonic passphrase =
    if e.is_set && str_eq e.mnemonic mnemonic && str_eq e.passphrase passphrase
    then some e.seed
    else find_seed es mnemonic passphrase

-- n rounds of the loop over i: the context, and the calls of progress_callback.
unfoldable pub update_loop : Sha → ℕ → ℕ → PbkdfCtx → PbkdfCtx × List (ℕ × ℕ)
update_loop h zero i pctx = (pctx, [])
update_loop h (suc n) i pctx =
    let rest = update_loop h n (i + 1) (pbkdf2_update h pctx (2048 / 16)) in
    (rest.0, ((i + 1) * 2048 / 16, 2048) ∷ rest.1)

-- The seed from PBKDF2, and all calls of progress_callback; none where memcpy writes past the salt.
unfoldable pub derive_seed : Sha → List ℕ → List ℕ → List ℕ → Option (List ℕ × List (ℕ × ℕ))
derive_seed h buffer mnemonic passphrase =
    let salt = codes "mnemonic" ++ passphrase in
    let r = update_loop h 16 0 (pbkdf2_init h buffer mnemonic salt) in
    if leb (length passphrase) 256 then some (pbkdf2_final h r.0, (0, 2048) ∷ r.1) else none

-- bip39_cache[i] = e
unfoldable pub set_entry : List CacheEntry → ℕ → CacheEntry → List CacheEntry
set_entry [] i e = []
set_entry (x ∷ xs) zero e = e ∷ xs
set_entry (x ∷ xs) (suc i) e = x ∷ set_entry xs i e

unfoldable pub store_seed : SeedCache → List ℕ → List ℕ → List ℕ → SeedCache
store_seed cache mnemonic passphrase seed = record {
  index = (cache.index + 1) % 4;
  entries =
      set_entry cache.entries cache.index
        (record { is_set = true; mnemonic = mnemonic; passphrase = passphrase; seed = seed });
}

pub record SeedResult : Type 0 where
  pub seed : List ℕ
  pub calls : List (ℕ × ℕ)
  pub cache : SeedCache

-- "found the correct entry": memcpy and return; else what was derived.
unfoldable pub found_or : SeedCache → Option SeedResult → Option (List ℕ) → Option SeedResult
found_or cache derived none = derived
found_or cache derived (some seed) = some (record { seed = seed; calls = []; cache = cache })

unfoldable pub mnemonic_to_seed :
    Functions → List ℕ → SeedCache → List ℕ → List ℕ → Bool → Option SeedResult
mnemonic_to_seed fs buffer cache mnemonic passphrase has_callback =
    let fits = ltb (length mnemonic) 256 && ltb (length passphrase) 64 in
    let derived : Option SeedResult = do
      (seed, calls) ← derive_seed (sha512_of fs) buffer mnemonic passphrase
      some (record {
        seed = seed;
        calls = if has_callback then calls else [];
        cache = if fits then store_seed cache mnemonic passphrase seed else cache;
      })
    in found_or cache derived (if fits then find_seed cache.entries mnemonic passphrase else none)
