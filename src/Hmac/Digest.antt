-- ===== src/Hmac/Digest.antt =====
-- The results of ios/Classes/hmac.c are digests.
use flutter_sdk.Base.{ℕ, ◌≡◌, List, length, AllBelow}
use flutter_sdk.Hash.{Sha}
use flutter_sdk.Hash.Laws.{IsSha}
use flutter_sdk.Hmac.{hmac}

pub length-hmac : (h : Sha) → IsSha h → (key m : List ℕ) → length (hmac h key m) ≡ h.digest_length
unfolding hmac
length-hmac h sha key m = sha.length_final _

pub hmac-AllBelow : (h : Sha) → IsSha h → (key m : List ℕ) → AllBelow 256 (hmac h key m)
unfolding hmac
hmac-AllBelow h sha key m = sha.final_bytes _
