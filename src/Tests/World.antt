-- ===== src/Tests/World.antt =====
-- A small platform that keeps what the code relies on, and test data over it.
use go_web_eid.Common.{
  ◌+◌, ◌-◌, ◌==◌, ◌&&◌, ◌≡◌, refl, ap, true, false, pos, none, [], ◌∷◌, map, length, is_empty,
  if◌then◌else◌, arith,
}
use go_web_eid.Go.Text.{Text, Bytes, Unicode, codes, text_eq, contains_byte, lower_byte, upper_byte}
use go_web_eid.Go.Time.{seconds, minutes, zero_time}
use go_web_eid.Go.Base64.{Base64, IsCodec}
use go_web_eid.Go.Url.{Url, ParseUrl}
use go_web_eid.Exceptions.{plain, ok, err}
use go_web_eid.Certificate.X509.{Oid, Name, ecdsa, Certificate, X509, NeedsRoots}
use go_web_eid.Certificate.Subject.{Runes}
use go_web_eid.Certificate.Trust.{TrustStore}
use go_web_eid.Certificate.Checks.{oid_certificate_policies}
use go_web_eid.Signature.Verify.{Crypto}
use go_web_eid.Ocsp.Options.{Checker, Client}
use go_web_eid.Ocsp.Request.{OcspCodec, Response, good, revoked, oid_ocsp_nonce}
use go_web_eid.Platform.{Platform}

-- Every byte as one character, 100 places on.
abbrev shift : Bytes → Text
shift bs = map (λ b. b + 100) bs

abbrev unshift : Text → Bytes
unshift s = map (λ b. b - 100) s

abbrev pub base64 : Base64
base64 = record {
  encode_std = shift;
  decode_std = λ s. ok (unshift s);
  encode_raw_url = shift;
  decode_raw_url = λ s. ok (unshift s);
}

unshift-shift : (bs : Bytes) → unshift (shift bs) ≡ bs
unshift-shift [] = refl
unshift-shift (b ∷ bs) = ground (arith, unshift-shift bs)

no_dot-shift : (bs : Bytes) → contains_byte b'.' (shift bs) ≡ false
unfolding contains_byte
no_dot-shift [] = refl
no_dot-shift (b ∷ bs) = ground (arith, no_dot-shift bs)

pub base64-IsCodec : IsCodec base64
base64-IsCodec = record {
  decode-encode_std = λ bs. ap ok (unshift-shift bs);
  decode-encode_raw_url = λ bs. ap ok (unshift-shift bs);
  no_dot = no_dot-shift;
}

abbrev pub unicode : Unicode
unicode = record { lower = λ s. s; upper = λ s. s; trim = λ s. s; fold_eq = text_eq }

-- Every byte is a rune, without case beyond ASCII.
abbrev pub runes : Runes
runes = record { decode = λ s. s; encode = λ s. s; lower = lower_byte; upper = upper_byte }

abbrev pub site : Text
site = codes "https://a.lv"

abbrev pub site_url : Url
site_url = record {
  scheme = codes "https";
  user = none;
  host = codes "a.lv";
  hostname = codes "a.lv";
  path = [];
  raw_query = [];
  fragment = [];
}

abbrev pub parse_url : ParseUrl
parse_url raw = if text_eq raw site then ok site_url else err (plain "unknown")

abbrev pub policy : Oid
policy = 1 ∷ 2 ∷ 3 ∷ []

abbrev pub person : Name
person = record {
  common_name = codes "ANNA";
  serial_number = codes "PNOLV-1";
  country = codes "LV" ∷ [];
  names = [];
}

-- A certificate of a curve of eight bits, for authentication and for signing.
abbrev pub card : Certificate
card = record {
  raw = 1 ∷ [];
  raw_subject = 2 ∷ [];
  raw_spki = 3 ∷ [];
  serial = 77;
  not_before = pos 10;
  not_after = pos 90;
  key_usage = 3;
  ext_key_usage = 2 ∷ [];
  extensions = record { id = oid_certificate_policies; value = [] } ∷ [];
  subject = person;
  public_key = ecdsa 8 (4 ∷ []);
  ocsp_server = site ∷ [];
}

abbrev pub ca : Certificate
ca = record card { raw = 9 ∷ []; serial = 1; ext_key_usage = [] }

-- Only the authority signs, and a chain wants a root; every certificate has one policy.
abbrev pub x509 : X509
x509 = record {
  parse = λ der. if text_eq der (1 ∷ []) then ok card else err (plain "malformed");
  check_signature_from =
      λ c issuer. if text_eq issuer.raw (9 ∷ []) then ok tt else err (plain "not the issuer");
  verify = λ c o. if is_empty o.roots then err (plain "unknown authority") else ok tt;
  unmarshal_policies = λ bs. ok (policy ∷ []);
}

pub x509-NeedsRoots : NeedsRoots x509
x509-NeedsRoots c o h = ground arith

-- A signature is the length of the digest, and a seven.
abbrev pub crypto : Crypto
crypto = record {
  available = λ h. true;
  sum = λ h bs. bs;
  verify_pss = λ key h digest sig. if text_eq digest sig then ok tt else err (plain "wrong");
  verify_pkcs1v15 = λ key h digest sig. if text_eq digest sig then ok tt else err (plain "wrong");
  ecdsa_verify = λ bits point digest r s. r == length digest && s == 7;
}

-- A fresh answer at the time 50 with the OCSP nonce 5, revoked if the body says so.
abbrev pub answered : Bytes → Response
answered body = record {
  status = if text_eq body (0 ∷ []) then revoked else good;
  serial_number = 99;
  this_update = pos 40;
  next_update = zero_time;
  extensions = record { id = oid_ocsp_nonce; value = 5 ∷ [] } ∷ [];
}

abbrev pub ocsp : OcspCodec
ocsp = record {
  subject_public_key = λ spki. ok spki;
  sha1 = λ bs. bs;
  marshal = λ r. ok (6 ∷ []);
  parse_response = λ body issuer. ok (answered body);
  parse_response_by = λ body responder. ok (answered body);
}

abbrev pub platform : Platform
platform = record {
  x509 = x509;
  crypto = crypto;
  base64 = base64;
  unicode = unicode;
  runes = runes;
  parse_url = parse_url;
  ocsp = ocsp;
}

abbrev pub trust : TrustStore
trust = record { address = 0; snap = record { intermediates = ca ∷ []; pool = ca ∷ [] } }

-- A responder that always answers the same body.
abbrev pub responder : Bytes → Client
responder body url request timeout = ok body

abbrev pub checker : Bytes → Checker
checker body = record {
  client = responder body;
  request_timeout = seconds 5;
  designated = none;
  nonce_disabled_urls = [];
  allowed_responder_urls = site ∷ [];
  allowed_response_time_skew = minutes 15;
  max_response_this_update_age = minutes 2;
}
