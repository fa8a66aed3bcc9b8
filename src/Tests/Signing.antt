-- ===== src/Tests/Signing.antt =====
-- The signing operations on the small platform.
use go_web_eid.Common.{true, ◌≡◌, refl, some, List, [], ◌∷◌, pos, In}
use go_web_eid.Go.Text.{Text, codes, text_eq, all_ascii, to_upper, equal_fold}
use go_web_eid.Go.Time.{before, after}
use go_web_eid.Go.BigInt.{set_bytes}
use go_web_eid.Exceptions.{ok}
use go_web_eid.Certificate.Checks.{
  check_validity, check_key_usage_for_signing, extract_policies, contains_oid,
}
use go_web_eid.Certificate.Policy.{check_accepted_policies, any_accepted}
use go_web_eid.Certificate.Trust
use go_web_eid.Validator.Validate.{Moment}
use go_web_eid.Signing.HashFunction.{
  SignatureAlgorithm, select_hash_function, pick_algorithm_for_hash,
}
use go_web_eid.Signing.HashFunction.Laws.{pick-select}
use go_web_eid.Signing.Signer.{Signer, prepare_signing}
use go_web_eid.Signing.Signer.Laws.{IsPrepared, prepare_signing_iff}
use go_web_eid.Signing.SignatureValue.{verify_signature_value}
use go_web_eid.Signing.SignatureValue.Laws.{verify_signature_value_iff}
use go_web_eid.Tests.World.{unicode, card, ca, crypto, platform, trust, policy, checker}
use go_web_eid.Tests.Ocsp.{checked}

abbrev ecc : Text → SignatureAlgorithm
ecc hash = record {
  crypto_algorithm = codes "ECC";
  hash_function = hash;
  padding_scheme = codes "NONE";
}

-- The card writes its hash functions in lower case.
abbrev supported : List SignatureAlgorithm
supported = ecc (codes "sha-256") ∷ ecc (codes "sha-384") ∷ []

abbrev preference : List Text
preference = codes "SHA3-512" ∷ codes "SHA-384" ∷ codes "SHA-256" ∷ []

selected : select_hash_function unicode preference supported ≡ ok (codes "SHA-384")
unfolding select_hash_function to_upper text_eq
selected = refl

pick-select_example :
    In (pick_algorithm_for_hash unicode (codes "SHA-384") supported) supported
    × (equal_fold unicode
          (pick_algorithm_for_hash unicode (codes "SHA-384") supported).hash_function
          (codes "SHA-384")
        ≡ true)
unfolding all_ascii
pick-select_example =
    pick-select unicode preference supported (codes "SHA-384") (refl, (refl, tt)) refl selected

abbrev signer : Signer
signer = record {
  hash_preference = preference;
  trust = some trust;
  ocsp_checker = some (checker (1 ∷ []));
  accepted_policies = policy ∷ [];
}

abbrev moment : Moment
moment = record { now = pos 50; ocsp_now = pos 50; drawn = ok (5 ∷ []) }

prepared :
    IsPrepared platform signer moment
      (1 ∷ [])
      supported
      card
      (ecc (codes "sha-384"))
      (codes "SHA-384")
unfolding check_validity before after check_key_usage_for_signing check_accepted_policies
    Trust.verify Trust.issuer_of text_eq pick_algorithm_for_hash equal_fold extract_policies
    contains_oid any_accepted
prepared = record {
  parsed = refl;
  valid = refl;
  purpose = refl;
  policies = refl;
  trusted = (refl, (ca, refl, checked));
  selected = selected;
  picked = refl;
}

prepare_signing_iff_example :
    prepare_signing platform signer moment (1 ∷ []) supported
    ≡ ok (card, ecc (codes "sha-384"), codes "SHA-384")
prepare_signing_iff_example =
    (prepare_signing_iff platform signer moment (1 ∷ []) supported card (ecc (codes "sha-384"))
        (codes "SHA-384")).1
      prepared

verify_signature_value_iff_example :
    verify_signature_value crypto unicode
      (some card)
      (ecc (codes "SHA-256"))
      (1 ∷ 2 ∷ 3 ∷ [])
      (3 ∷ 7 ∷ [])
    ≡ ok tt
unfolding set_bytes
verify_signature_value_iff_example =
    (verify_signature_value_iff crypto unicode (some card) (ecc (codes "SHA-256")) (1 ∷ 2 ∷ 3 ∷ [])
        (3 ∷ 7 ∷ [])).1
      (λ e. cc, λ e. cc, (card, refl, (refl, refl)))
