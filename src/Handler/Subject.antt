-- ===== src/Handler/Subject.antt =====
-- azugo/subject.go, with the response of azugo/dto.go: the subject of a validated certificate.
use go_web_eid.Common.{[]}
use go_web_eid.Go.Text.{Text}
use go_web_eid.Exceptions.{Result, ok, err}
use go_web_eid.Certificate.X509.{Certificate}
use go_web_eid.Certificate.Subject.{
  subject_cn, subject_id_code, subject_country_code, subject_given_name, subject_surname,
}

-- SubjectResponse
pub record SubjectResponse : Type 0 where
  pub common_name : Text
  pub id_code : Text
  pub country_code : Text
  pub given_name : Text
  pub surname : Text

-- A field that cannot be read stays empty.
abbrev pub or_empty : Result Text → Text
or_empty (ok s) = s
or_empty (err e) = []

-- subjectFromCertificate
unfoldable pub subject_from_certificate : Certificate → SubjectResponse
subject_from_certificate cert = record {
  common_name = or_empty (subject_cn cert);
  id_code = or_empty (subject_id_code cert);
  country_code = or_empty (subject_country_code cert);
  given_name = or_empty (subject_given_name cert);
  surname = or_empty (subject_surname cert);
}
