-- ===== src/Hash/Zero.antt =====
-- A hash whose digests are zeros, with the interface of ios/Classes/sha2.h: it meets every law that
-- is asked of a hash, so that the theorems can be applied in tests.
use flutter_sdk.Base.{ℕ, refl, arith, [], replicate, replicate-AllBelow}
use flutter_sdk.Hash.{Functions, sha256_of, sha512_of, words, be_word}
use flutter_sdk.Hash.Laws.{IsSha}

abbrev pub zero_functions : ℕ → Functions
zero_functions n = record {
  init = record { state = []; bitcount = 0; buffer = [] };
  update = λ c m. c;
  final = λ c. replicate n 0;
  raw = λ m. replicate n 0;
  transform = λ s b. replicate 8 0;
  initial_hash_value = [];
}

pub zero_sha256-IsSha : IsSha (sha256_of (zero_functions 32))
unfolding words be_word
zero_sha256-IsSha = record {
  length_final = λ c. refl;
  final_bytes = λ c. replicate-AllBelow 256 32 0 (omega arith);
  length_raw = λ m. refl;
  raw_bytes = λ m. replicate-AllBelow 256 32 0 (omega arith);
  pieces = λ c a b. refl;
  after_block = λ block m buffer e all. refl;
  padded = λ block m e all e' all'. refl;
}

pub zero_sha512-IsSha : IsSha (sha512_of (zero_functions 64))
unfolding words be_word
zero_sha512-IsSha = record {
  length_final = λ c. refl;
  final_bytes = λ c. replicate-AllBelow 256 64 0 (omega arith);
  length_raw = λ m. refl;
  raw_bytes = λ m. replicate-AllBelow 256 64 0 (omega arith);
  pieces = λ c a b. refl;
  after_block = λ block m buffer e all. refl;
  padded = λ block m e all e' all'. refl;
}
