-- ===== src/Ocsp/Request.antt =====
-- ocsp/client.go: the OCSP request of a certificate, and the nonce of a response. ASN.1, SHA-1 and
-- the parser of responses are an interface.
use go_web_eid.Common.{ℕ, Option, none, some, List, [], ◌∷◌, if◌then◌else◌}
use go_web_eid.Go.Text.{Bytes}
use go_web_eid.Go.Time.{Time}
use go_web_eid.Exceptions.{Result, ok, err, wrap, GoError, err_ocsp_request_failed}
use go_web_eid.Nonce.Generator.{Random}
use go_web_eid.Certificate.X509.{Oid, oid_eq, Extension, Certificate}

abbrev pub oid_ocsp_nonce : Oid
oid_ocsp_nonce = 1 ∷ 3 ∷ 6 ∷ 1 ∷ 5 ∷ 5 ∷ 7 ∷ 48 ∷ 1 ∷ 2 ∷ []

abbrev pub oid_sha1 : Oid
oid_sha1 = 1 ∷ 3 ∷ 14 ∷ 3 ∷ 2 ∷ 26 ∷ []

-- generateNonce; the checks take what it answers.
unfoldable pub generate_nonce : Random → Result Bytes
generate_nonce random = random 16

-- certID
pub record CertId : Type 0 where
  pub hash_algorithm : Oid
  pub issuer_name_hash : Bytes
  pub issuer_key_hash : Bytes
  pub serial_number : ℕ

-- ocspRequest with its tbsRequest, whose requests each have a certID
pub record OcspRequest : Type 0 where
  pub request_list : List CertId
  pub request_extensions : List Extension

-- The status of a response; every value but Good and Revoked is treated alike.
pub data Status : Type 0 where
  good revoked unknown : Status

-- ocsp.Response of golang.org/x/crypto
pub record Response : Type 0 where
  pub status : Status
  pub serial_number : ℕ
  pub this_update : Time
  pub next_update : Time
  pub extensions : List Extension

pub record OcspCodec : Type 0 where
  -- the bits of the subject public key of a SubjectPublicKeyInfo
  pub subject_public_key : Bytes → Result Bytes
  pub sha1 : Bytes → Bytes
  pub marshal : OcspRequest → Result Bytes
  -- ParseResponse, verified by the issuer
  pub parse_response : Bytes → Certificate → Result Response
  -- ParseResponseForCert with no certificate, verified by the responder's
  pub parse_response_by : Bytes → Certificate → Result Response

abbrev pub nonce_extensions : Option Bytes → List Extension
nonce_extensions none = []
nonce_extensions (some nonce) = record { id = oid_ocsp_nonce; value = nonce } ∷ []

module _ (codec : OcspCodec) where
  abbrev marshal_for : Certificate → Certificate → Option Bytes → Result Bytes → Result Bytes
  marshal_for cert issuer sent (err e) = err e
  marshal_for cert issuer sent (ok key) = codec.marshal (record {
    request_list =
        record {
          hash_algorithm = oid_sha1;
          issuer_name_hash = codec.sha1 issuer.raw_subject;
          issuer_key_hash = codec.sha1 key;
          serial_number = cert.serial;
        }
        ∷ [];
    request_extensions = nonce_extensions sent;
  })

  -- buildRequest
  unfoldable pub build_request : Certificate → Certificate → Option Bytes → Result Bytes
  build_request cert issuer nonce =
      marshal_for cert issuer nonce (codec.subject_public_key issuer.raw_spki)

  -- parseAndVerify
  unfoldable pub parse_and_verify : Bytes → Certificate → Option Certificate → Result Response
  parse_and_verify resp issuer none = codec.parse_response resp issuer
  parse_and_verify resp issuer (some responder) = codec.parse_response_by resp responder

-- The loop of responseNonce.
unfoldable pub nonce_in : List Extension → Option Bytes
nonce_in [] = none
nonce_in (ext ∷ exts) =
    let rest = nonce_in exts in if oid_eq ext.id oid_ocsp_nonce then some ext.value else rest

-- responseNonce
unfoldable pub response_nonce : Response → Option Bytes
unfolding nonce_in
response_nonce resp = nonce_in resp.extensions

-- wrapOCSPError
abbrev pub wrap_ocsp_error : GoError → GoError
wrap_ocsp_error e = wrap err_ocsp_request_failed e
