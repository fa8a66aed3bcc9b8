-- ===== src/Certificate/Policy.antt =====
-- certificate/policy.go: policy identifiers, their parser, the any-of acceptance gate, and the
-- identity binding between two certificates.
pub mod Laws
use go_web_eid.Common.{
  ℕ, Bool, true, false, ◌||◌, not, ℤ, pos, negsuc, Option, none, some, List, [], ◌∷◌, ltb,
  if◌then◌else◌, is_empty, length,
}
use go_web_eid.Go.Text.{Text, Unicode, codes, text_eq, has_prefix, trim_space, split}
use go_web_eid.Go.Atoi.{atoi}
use go_web_eid.Exceptions.{
  GoError, plain, Result, ok, err, wrap, err_certificate_disallowed_policy,
  err_identity_binding_mismatch,
}
use go_web_eid.Certificate.X509.{Oid, Certificate, X509}
use go_web_eid.Certificate.Checks.{contains_oid, extract_policies}

abbrev pub oid_qcp_natural : Oid
oid_qcp_natural = 0 ∷ 4 ∷ 0 ∷ 194112 ∷ 1 ∷ 0 ∷ []

abbrev pub oid_qcp_natural_qscd : Oid
oid_qcp_natural_qscd = 0 ∷ 4 ∷ 0 ∷ 194112 ∷ 1 ∷ 2 ∷ []

abbrev pub oid_qcp_legal_qscd : Oid
oid_qcp_legal_qscd = 0 ∷ 4 ∷ 0 ∷ 194112 ∷ 1 ∷ 3 ∷ []

-- An identifier under the LVRTC arc 1.3.6.1.4.1.32061.
abbrev pub lvrtc : List ℕ → Oid
lvrtc rest = 1 ∷ 3 ∷ 6 ∷ 1 ∷ 4 ∷ 1 ∷ 32061 ∷ rest

abbrev pub oid_lv_eid_karte_1 : Oid
oid_lv_eid_karte_1 = lvrtc (2 ∷ 1 ∷ 2 ∷ 1 ∷ [])

abbrev pub oid_lv_eid_karte_2 : Oid
oid_lv_eid_karte_2 = lvrtc (2 ∷ 1 ∷ 2 ∷ 2 ∷ [])

abbrev pub oid_lv_eid_karte_no_qscd : Oid
oid_lv_eid_karte_no_qscd = lvrtc (2 ∷ 1 ∷ 2 ∷ 3 ∷ [])

abbrev pub oid_lv_eparaksts : Oid
oid_lv_eparaksts = lvrtc (2 ∷ 1 ∷ 3 ∷ 2 ∷ [])

abbrev pub oid_lv_eparaksts_karte : Oid
oid_lv_eparaksts_karte = lvrtc (2 ∷ 1 ∷ 4 ∷ 1 ∷ [])

abbrev pub oid_lv_eparaksts_karte_plus : Oid
oid_lv_eparaksts_karte_plus = lvrtc (2 ∷ 1 ∷ 5 ∷ 1 ∷ [])

abbrev pub oid_lv_ezimogs : Oid
oid_lv_ezimogs = lvrtc (2 ∷ 2 ∷ 1 ∷ 1 ∷ [])

abbrev pub oid_lv_ezimogs_plus_cloud : Oid
oid_lv_ezimogs_plus_cloud = lvrtc (2 ∷ 2 ∷ 2 ∷ 1 ∷ [])

-- LVCardQSCDSigningPolicies
unfoldable pub lv_card_qscd_signing_policies : List Oid
lv_card_qscd_signing_policies =
    oid_lv_eid_karte_1 ∷ oid_lv_eid_karte_2 ∷ oid_lv_eparaksts_karte ∷ oid_lv_eparaksts_karte_plus
    ∷ []

-- A component in front of the components behind it.
abbrev pub component : Option ℤ → Result Oid → Result Oid
component (some (pos n)) (ok oid) = ok (n ∷ oid)
component (some (pos n)) (err e) = err e
component (some (negsuc n)) rest = err (plain "invalid OID component")
component none rest = err (plain "invalid OID component")

-- The loop of ParseOID; the first bad component decides, and all have one error here.
pub parse_components : List Text → Result Oid
parse_components [] = ok []
parse_components (p ∷ ps) = component (atoi p) (parse_components ps)

module _ (u : Unicode) where
  -- ParseOID
  pub parse_oid : Text → Result Oid
  unfolding parse_components
  parse_oid s =
      let parts = split b'.' (trim_space u s) in
      if ltb (length parts) 2 then err (plain "invalid OID") else parse_components parts

  abbrev prepend_oid : Result Oid → Result (List Oid) → Result (List Oid)
  prepend_oid (ok oid) (ok oids) = ok (oid ∷ oids)
  prepend_oid (ok oid) (err e) = err e
  prepend_oid (err e) rest = err e

  -- ParseOIDs; values of spaces alone are skipped.
  unfoldable pub parse_oids : List Text → Result (List Oid)
  unfolding parse_oid
  parse_oids [] = ok []
  parse_oids (v ∷ vs) =
      let rest = parse_oids vs in
      if is_empty (trim_space u v) then rest else prepend_oid (parse_oid v) rest

-- The loops of CheckAcceptedPolicies: the first accepted identifier that is present ends them.
unfoldable pub any_accepted : List Oid → List Oid → Bool
any_accepted [] present = false
any_accepted (want ∷ accepted) present = contains_oid want present || any_accepted accepted present

abbrev pub accept : List Oid → Result (List Oid) → Result (Unit {0})
accept accepted (err e) = err (wrap err_certificate_disallowed_policy e)
accept accepted (ok present) =
    if any_accepted accepted present then ok tt else err err_certificate_disallowed_policy

-- CheckAcceptedPolicies
unfoldable pub check_accepted_policies : X509 → Certificate → List Oid → Result (Unit {0})
unfolding any_accepted
check_accepted_policies x cert accepted =
    if is_empty accepted then ok tt else accept accepted (extract_policies x cert)

abbrev pub natural_person_id_prefix : Text
natural_person_id_prefix = codes "PNO"

-- CheckSameNaturalPerson: `checked`, and the error.
unfoldable pub check_same_natural_person :
    Option Certificate → Option Certificate → Bool × Result (Unit {0})
check_same_natural_person none b = (false, err err_identity_binding_mismatch)
check_same_natural_person (some a) none = (false, err err_identity_binding_mismatch)
check_same_natural_person (some a) (some b) =
    let id_a = a.subject.serial_number in
    let id_b = b.subject.serial_number in
    if not (has_prefix id_a natural_person_id_prefix)
      || not (has_prefix id_b natural_person_id_prefix)
    then (false, ok tt)
    else if not (text_eq id_a id_b)
    then (true, err err_identity_binding_mismatch)
    else (true, ok tt)
