-- ===== src/Certificate/X509.antt =====
-- crypto/x509 as the program sees it: the fields of a parsed certificate that the code reads. The
-- package's operations are an interface.
use go_web_eid.Common.{ℕ, Bool, List, [], ◌/◌, ◌%◌, ◌^◌, ◌==◌, ◌≡◌, ◌≢◌}
use go_web_eid.Go.Text.{Text, Bytes, text_eq}
use go_web_eid.Go.Time.{Time}
use go_web_eid.Exceptions.{Result, ok}

-- asn1.ObjectIdentifier
abbrev pub Oid : Type 0
Oid = List ℕ

-- asn1.ObjectIdentifier.Equal
abbrev pub oid_eq : Oid → Oid → Bool
oid_eq = text_eq

pub record Extension : Type 0 where
  pub id : Oid
  pub value : Bytes

-- pkix.AttributeTypeAndValue; `text` is empty if the value is no string.
pub record Attribute : Type 0 where
  pub type : Oid
  pub text : Text

-- pkix.Name
pub record Name : Type 0 where
  pub common_name : Text
  pub serial_number : Text
  pub country : List Text
  pub names : List Attribute

-- The dynamic type of Certificate.PublicKey.
pub data PublicKey : Type 0 where
  rsa : (key : Bytes) → PublicKey
  ecdsa : (bit_size : ℕ) → (point : Bytes) → PublicKey
  other : PublicKey

pub record Certificate : Type 0 where
  pub raw : Bytes
  pub raw_subject : Bytes
  pub raw_spki : Bytes
  pub serial : ℕ
  pub not_before : Time
  pub not_after : Time
  pub key_usage : ℕ
  pub ext_key_usage : List ℕ
  pub extensions : List Extension
  pub subject : Name
  pub public_key : PublicKey
  pub ocsp_server : List Text

-- The bit that x509.KeyUsageDigitalSignature and x509.KeyUsageContentCommitment set.
abbrev pub digital_signature : ℕ
digital_signature = 0

abbrev pub content_commitment : ℕ
content_commitment = 1

-- x509.ExtKeyUsageAny, x509.ExtKeyUsageClientAuth
abbrev pub ext_any : ℕ
ext_any = 0

abbrev pub ext_client_auth : ℕ
ext_client_auth = 2

-- usage & (1 << bit) != 0
abbrev pub has_bit : ℕ → ℕ → Bool
has_bit usage bit = (usage / 2 ^ bit) % 2 == 1

-- A CertPool, as the certificates that were added to it.
abbrev pub Pool : Type 0
Pool = List Certificate

pub record VerifyOptions : Type 0 where
  pub roots : Pool
  pub intermediates : Pool
  pub current_time : Time
  pub key_usages : List ℕ

-- What crypto/x509 and encoding/asn1 answer.
pub record X509 : Type 0 where
  pub parse : Bytes → Result Certificate
  pub check_signature_from : Certificate → Certificate → Result (Unit {0})
  pub verify : Certificate → VerifyOptions → Result (Unit {0})
  -- asn1.Unmarshal into a list of PolicyInformation: the policy identifiers in order
  pub unmarshal_policies : Bytes → Result (List Oid)

-- Documented: no chain can be built to an empty set of roots.
abbrev pub NeedsRoots : X509 → Type 0
NeedsRoots x = (c : Certificate) (o : VerifyOptions) → o.roots ≡ [] → x.verify c o ≢ ok tt
