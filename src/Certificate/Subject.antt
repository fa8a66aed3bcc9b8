-- ===== src/Certificate/Subject.antt =====
-- certificate/data.go: subject fields and title case.
use go_web_eid.Common.{
  map, ℕ, Bool, not, ◌&&◌, ◌||◌, true, List, [], ◌∷◌, ◌==◌, if◌then◌else◌, is_empty,
}
use go_web_eid.Go.Text.{Text}
use go_web_eid.Exceptions.{GoError, plain, Result, ok, err}
use go_web_eid.Certificate.X509.{Oid, oid_eq, Attribute, Certificate}

abbrev pub err_subject_field_missing : GoError
err_subject_field_missing = plain "certificate subject field is missing"

abbrev pub oid_surname : Oid
oid_surname = 2 ∷ 5 ∷ 4 ∷ 4 ∷ []

abbrev pub oid_given_name : Oid
oid_given_name = 2 ∷ 5 ∷ 4 ∷ 42 ∷ []

-- A field that must not be empty.
abbrev pub present : Text → Result Text
present [] = err err_subject_field_missing
present (c ∷ s) = ok (c ∷ s)

-- SubjectCN
unfoldable pub subject_cn : Certificate → Result Text
subject_cn c = present c.subject.common_name

-- SubjectIDCode
unfoldable pub subject_id_code : Certificate → Result Text
subject_id_code c = present c.subject.serial_number

abbrev pub first_country : List Text → Result Text
first_country [] = err err_subject_field_missing
first_country (s ∷ _) = present s

-- SubjectCountryCode
unfoldable pub subject_country_code : Certificate → Result Text
subject_country_code c = first_country c.subject.country

-- The loops of SubjectGivenName and SubjectSurname.
pub first_attribute : Oid → List Attribute → Result Text
first_attribute o [] = err err_subject_field_missing
first_attribute o (a ∷ rest_of) =
    let rest = first_attribute o rest_of in
    if oid_eq a.type o && not (is_empty a.text) then ok a.text else rest

-- SubjectGivenName
unfoldable pub subject_given_name : Certificate → Result Text
unfolding first_attribute
subject_given_name c = first_attribute oid_given_name c.subject.names

-- SubjectSurname
unfoldable pub subject_surname : Certificate → Result Text
unfolding first_attribute
subject_surname c = first_attribute oid_surname c.subject.names

-- A word boundary of TitleCase: a space, a hyphen or an apostrophe.
abbrev pub is_boundary : ℕ → Bool
is_boundary r = (r == b' ' || r == b'-') || r == 39

-- The loop of TitleCase over the runes of the lower-case text; `upper` is unicode.ToUpper.
pub title_from : (ℕ → ℕ) → Bool → List ℕ → List ℕ
title_from upper prev_boundary [] = []
title_from upper prev_boundary (r ∷ rs) =
    (if prev_boundary then upper r else r) ∷ title_from upper (is_boundary r) rs

-- TitleCase, from the runes of a text to the runes of the result; `lower` is unicode.ToLower.
unfoldable pub title_case : (lower upper : ℕ → ℕ) → List ℕ → List ℕ
unfolding title_from
title_case lower upper s = title_from upper true (map lower s)

-- unicode/utf8 and unicode: the runes of a text and back, and the case of a rune.
pub record Runes : Type 0 where
  pub decode : Text → List ℕ
  pub encode : List ℕ → Text
  pub lower : ℕ → ℕ
  pub upper : ℕ → ℕ

-- TitleCase of a text.
unfoldable pub title_case_text : Runes → Text → Text
title_case_text r s = r.encode (title_case r.lower r.upper (r.decode s))
