-- ===== src/Signing/HashFunction.antt =====
-- signing/hash.go and SignatureAlgorithm of signing/certificate.go: hash functions by name, and
-- the choice among those that the card offers.
pub mod Laws
use go_web_eid.Common.{Bool, true, false, ◌||◌, List, [], ◌∷◌, if◌then◌else◌}
use go_web_eid.Go.Text.{Text, Unicode, codes, text_eq, to_upper, equal_fold}
use go_web_eid.Exceptions.{Result, ok, err, err_no_supported_hash_function}

-- SignatureAlgorithm
pub record SignatureAlgorithm : Type 0 where
  pub crypto_algorithm : Text
  pub hash_function : Text
  pub padding_scheme : Text

-- SupportedHashFunctions
abbrev pub supported_hash_functions : List Text
supported_hash_functions =
    codes "SHA-224"
    ∷ codes "SHA-256"
    ∷ codes "SHA-384"
    ∷ codes "SHA-512"
    ∷ codes "SHA3-224"
    ∷ codes "SHA3-256"
    ∷ codes "SHA3-384"
    ∷ codes "SHA3-512"
    ∷ []

-- The loop of IsSupportedHashFunction, and membership in a set of strings.
unfoldable pub contains_text : Text → List Text → Bool
contains_text name [] = false
contains_text name (h ∷ hs) = text_eq h name || contains_text name hs

-- IsSupportedHashFunction
unfoldable pub is_supported_hash_function : Text → Bool
is_supported_hash_function name = contains_text name supported_hash_functions

module _ (u : Unicode) where
  -- The set `offered`.
  pub offered : List SignatureAlgorithm → List Text
  offered [] = []
  offered (s ∷ supported) = to_upper u s.hash_function ∷ offered supported

  -- The loop of SelectHashFunction over the preferences.
  pub first_offered : List Text → List Text → Result Text
  first_offered [] names = err err_no_supported_hash_function
  first_offered (want ∷ preference) names =
      let rest = first_offered preference names in
      if contains_text (to_upper u want) names then ok want else rest

  -- SelectHashFunction
  unfoldable pub select_hash_function : List Text → List SignatureAlgorithm → Result Text
  unfolding contains_text offered first_offered
  select_hash_function preference supported = first_offered preference (offered supported)

  -- pickAlgorithmForHash, with equalFoldHash
  unfoldable pub pick_algorithm_for_hash : Text → List SignatureAlgorithm → SignatureAlgorithm
  pick_algorithm_for_hash hash_fn [] = record {
    crypto_algorithm = [];
    hash_function = hash_fn;
    padding_scheme = [];
  }
  pick_algorithm_for_hash hash_fn (s ∷ supported) =
      let rest = pick_algorithm_for_hash hash_fn supported in
      if equal_fold u s.hash_function hash_fn then s else rest
