-- ===== src/Signature/Algorithm.antt =====
-- signature/verify.go: the nine JWA algorithms and their hash functions.
use go_web_eid.Common.{Bool, true, false, Option, none, some, [], ◌∷◌}
use go_web_eid.Go.Text.{Text, codes}
use go_web_eid.Go.Map.{Map, lookup}

-- crypto.Hash, of the functions that the program names
pub data Hash : Type 0 where
  sha224 sha256 sha384 sha512 : Hash

-- jwaToHash
abbrev pub jwa_to_hash : Map Hash
jwa_to_hash =
    (codes "RS256", sha256)
    ∷ (codes "RS384", sha384)
    ∷ (codes "RS512", sha512)
    ∷ (codes "PS256", sha256)
    ∷ (codes "PS384", sha384)
    ∷ (codes "PS512", sha512)
    ∷ (codes "ES256", sha256)
    ∷ (codes "ES384", sha384)
    ∷ (codes "ES512", sha512)
    ∷ []

-- HashFor
unfoldable pub hash_for : Text → Option Hash
hash_for algorithm = lookup algorithm jwa_to_hash

abbrev pub is_some {ℓ} : {A : Type ℓ} → Option A → Bool
is_some none = false
is_some (some _) = true

-- IsSupportedAlgorithm
unfoldable pub is_supported_algorithm : Text → Bool
is_supported_algorithm algorithm = is_some (lookup algorithm jwa_to_hash)
