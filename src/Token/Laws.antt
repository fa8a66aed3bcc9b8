-- ===== src/Token/Laws.antt =====
-- Which tokens Parse lets through, and the typed errors of those that it does not.
use go_web_eid.Common.{
  true, false, ◌≡◌, ◌≢◌, refl, ◌↔◌, ◌⊎◌, inl, inr, Option, some, [], ◌∷◌, ◌++◌, arith, ℤ, pos,
}
use go_web_eid.Go.Text.{
  Text, Bytes, codes, has_prefix, trim_prefix, strip_prefix, cut_before, text_eq,
}
use go_web_eid.Go.Map.{lookup}
use go_web_eid.Go.Atoi.{atoi}
use go_web_eid.Exceptions.{
  GoError, ok, err, error_code, status_code, token_parse, token_unsupported_format, Result-cases,
}
use go_web_eid.Signature.Algorithm.{is_supported_algorithm}
use go_web_eid.Token.{
  AuthToken, DecodeToken, validate_format, validate_structure, parse, check_major,
}

strip_prefix-eq-some :
    (s p : Text)
    → has_prefix s p ≡ true
    → (rest : Text) × (strip_prefix s p ≡ some rest) × (s ≡ p ++ rest)
unfolding has_prefix strip_prefix
strip_prefix-eq-some s [] h = (s, refl, refl)
strip_prefix-eq-some [] (p ∷ ps) h = cc
strip_prefix-eq-some (c ∷ s) (p ∷ ps) h =
    let (rest, stripped, same) = strip_prefix-eq-some s ps (ground arith) in
    (rest, ground arith, ground arith)

-- A text that starts with a prefix is the prefix and what TrimPrefix leaves.
pub has_prefix-trim : (s p : Text) → has_prefix s p ≡ true → s ≡ p ++ trim_prefix s p
unfolding trim_prefix
has_prefix-trim s p h = let (rest, stripped, same) = strip_prefix-eq-some s p h in ground arith

pub has_prefix-append : (p s : Text) → has_prefix (p ++ s) p ≡ true
unfolding has_prefix
has_prefix-append [] s = refl
has_prefix-append (c ∷ p) s = ground (arith, has_prefix-append p s)

strip_prefix-append : (p s : Text) → strip_prefix (p ++ s) p ≡ some s
unfolding strip_prefix
strip_prefix-append [] s = refl
strip_prefix-append (c ∷ p) s = ground (arith, strip_prefix-append p s)

pub trim_prefix-append : (p s : Text) → trim_prefix (p ++ s) p ≡ s
unfolding trim_prefix
trim_prefix-append p s = ground (arith, strip_prefix-append p s)

-- What a token must be: four fields that are not empty, one of the nine algorithms, and a format
-- "web-eid:v" where the part of v before its first dot reads as the number 1.
pub record IsWellFormed (t : AuthToken) : Type 0 where
  pub certificate : t.unverified_certificate ≢ []
  pub signature : t.signature ≢ []
  pub algorithm : is_supported_algorithm t.algorithm ≡ true
  pub version : Text
  pub format : t.format ≡ codes "web-eid:" ++ version
  pub major : atoi (cut_before b'.' version) ≡ some (pos 1)

check_major-ok : (o : Option ℤ) → (check_major o ≡ ok tt) ↔ (o ≡ some (pos 1))
check_major-ok o = ground arith

validate_format-version :
    (t : AuthToken)
    → validate_format t ≡ ok tt
    → (t.format ≡ codes "web-eid:" ++ trim_prefix t.format (codes "web-eid:"))
      × (atoi (cut_before b'.' (trim_prefix t.format (codes "web-eid:"))) ≡ some (pos 1))
unfolding validate_format
validate_format-version t h = ground (
  arith,
  has_prefix-trim t.format (codes "web-eid:"),
  check_major-ok (atoi (cut_before b'.' (trim_prefix t.format (codes "web-eid:")))),
)

validate_format_of_version :
    (t : AuthToken) (version : Text)
    → t.format ≡ codes "web-eid:" ++ version
    → atoi (cut_before b'.' version) ≡ some (pos 1)
    → validate_format t ≡ ok tt
unfolding validate_format
validate_format_of_version t version e h = ground (
  arith,
  has_prefix-append (codes "web-eid:") version,
  trim_prefix-append (codes "web-eid:") version,
  check_major-ok (atoi (cut_before b'.' version)),
)

no_algorithm : is_supported_algorithm [] ≡ false
unfolding is_supported_algorithm lookup text_eq
no_algorithm = refl

validate_format-error :
    (t : AuthToken) (e : GoError)
    → validate_format t ≡ err e
    → ((error_code e ≡ some token_parse) ⊎ (error_code e ≡ some token_unsupported_format))
      × (status_code e ≡ 400)
unfolding validate_format
validate_format-error t e h = ground arith

validate_structure-error :
    (t : AuthToken) (e : GoError)
    → validate_structure t ≡ err e
    → ((error_code e ≡ some token_parse) ⊎ (error_code e ≡ some token_unsupported_format))
      × (status_code e ≡ 400)
unfolding validate_structure
validate_structure-error t e h = ground (arith, validate_format-error t e)

-- A token passes the structural checks exactly if it is well formed.
pub validate_structure_iff : (t : AuthToken) → (validate_structure t ≡ ok tt) ↔ IsWellFormed t
unfolding validate_structure
validate_structure_iff t = (
  λ h. record {
    certificate = ground arith;
    signature = ground arith;
    algorithm = ground arith;
    version = trim_prefix t.format (codes "web-eid:");
    format = (validate_format-version t (ground arith)).0;
    major = (validate_format-version t (ground arith)).1;
  },
  λ w. ground (arith, no_algorithm, validate_format_of_version t w.version w.format w.major),
)

parse-error :
    (decode : DecodeToken) (bs : Bytes) (e : GoError)
    → parse decode bs ≡ err e
    → ((error_code e ≡ some token_parse) ⊎ (error_code e ≡ some token_unsupported_format))
      × (status_code e ≡ 400)
unfolding parse
parse-error decode bs e h = elim (Result-cases (decode bs)) [
  | inl (t, decoded) ↦ ground (arith, validate_structure-error t e)
  | inr (f, failed) ↦ ground arith
]

-- Parse answers a token exactly if the document is not empty, decodes to that token, and the token
-- is well formed; every error of it is a "malformed token" or an "unsupported format", both with
-- status 400.
pub parse_lem :
    (decode : DecodeToken) (bs : Bytes)
    → ((t : AuthToken)
        → (parse decode bs ≡ ok t) ↔ ((bs ≢ []) × (decode bs ≡ ok t) × IsWellFormed t))
      × ((e : GoError)
          → parse decode bs ≡ err e
          → ((error_code e ≡ some token_parse) ⊎ (error_code e ≡ some token_unsupported_format))
            × (status_code e ≡ 400))
unfolding parse
parse_lem decode bs = (
  λ t. (
    λ h.
        let decoded : decode bs ≡ ok t = ground arith in
        (ground arith, decoded, (validate_structure_iff t).0 (ground arith)),
    λ (filled, decoded, w). ground (arith, (validate_structure_iff t).1 w),
  ),
  λ e h. parse-error decode bs e h,
)
