-- ===== src/Token.antt =====
-- token.go: the authentication token, its parser, and the strict checks on its fields. The JSON
-- decoder is an interface.
pub mod Laws
use go_web_eid.Common.{
  ℕ, Bool, false, not, ℤ, pos, negsuc, Option, none, some, List, [], ◌∷◌, ◌==◌, if◌then◌else◌,
  is_empty,
}
use go_web_eid.Go.Text.{Text, Bytes, codes, has_prefix, trim_prefix, cut_before}
use go_web_eid.Go.Atoi.{atoi}
use go_web_eid.Go.Base64.{Base64}
use go_web_eid.Exceptions.{
  GoError, plain, Result, ok, err, ◌>>=◌, ◌>>◌, wrap, err_token_parse, err_token_unsupported_format,
}
use go_web_eid.Signature.Algorithm.{is_supported_algorithm}

-- AuthToken
pub record AuthToken : Type 0 where
  pub unverified_certificate : Text
  pub algorithm : Text
  pub signature : Text
  pub format : Text
  pub app_version : Text

abbrev pub err_empty_token : GoError
err_empty_token = plain "authentication token is empty"

abbrev pub err_missing_field : GoError
err_missing_field = plain "mandatory token field is missing"

abbrev pub err_unknown_algorithm : GoError
err_unknown_algorithm = plain "unsupported signature algorithm"

abbrev pub err_bad_format : GoError
err_bad_format = plain "unsupported token format"

abbrev pub supported_token_major_version : ℕ
supported_token_major_version = 1

-- Is the number the supported major version, 1?
abbrev pub is_supported_major : ℤ → Bool
is_supported_major (pos n) = n == supported_token_major_version
is_supported_major (negsuc n) = false

abbrev pub check_major : Option ℤ → Result (Unit {0})
check_major none = err (wrap err_token_unsupported_format err_bad_format)
check_major (some major) =
    if not (is_supported_major major)
    then err (wrap err_token_unsupported_format err_bad_format)
    else ok tt

-- validateFormat
pub validate_format : AuthToken → Result (Unit {0})
validate_format t =
    if is_empty t.format
    then err (wrap err_token_parse err_missing_field)
    else if not (has_prefix t.format (codes "web-eid:"))
    then err (wrap err_token_unsupported_format err_bad_format)
    else check_major (atoi (cut_before b'.' (trim_prefix t.format (codes "web-eid:"))))

-- validateStructure
pub validate_structure : AuthToken → Result (Unit {0})
validate_structure t =
    if is_empty t.unverified_certificate
    then err (wrap err_token_parse err_missing_field)
    else if is_empty t.signature
    then err (wrap err_token_parse err_missing_field)
    else if is_empty t.algorithm
    then err (wrap err_token_parse err_missing_field)
    else if not (is_supported_algorithm t.algorithm)
    then err (wrap err_token_parse err_unknown_algorithm)
    else validate_format t

-- json.Decoder.Decode into an AuthToken
abbrev pub DecodeToken : Type 0
DecodeToken = Bytes → Result AuthToken

-- A failure as a malformed token.
abbrev pub or_malformed {ℓ} : {A : Type ℓ} → Result A → Result A
or_malformed (ok a) = ok a
or_malformed (err e) = err (wrap err_token_parse e)

-- Parse
pub parse : DecodeToken → Bytes → Result AuthToken
parse decode token_json =
    if is_empty token_json
    then err (wrap err_token_parse err_empty_token)
    else do token ← or_malformed (decode token_json); validate_structure token; ok token

-- decodeCertificate
unfoldable pub decode_certificate : Base64 → AuthToken → Result Bytes
decode_certificate b64 t = or_malformed (b64.decode_std t.unverified_certificate)

-- decodeSignature
unfoldable pub decode_signature : Base64 → AuthToken → Result Bytes
decode_signature b64 t = or_malformed (b64.decode_std t.signature)
