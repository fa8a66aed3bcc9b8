-- ===== src/Platform.antt =====
-- What the program takes from Go's standard library and from golang.org/x/crypto without modelling
-- it: certificates, cryptography, encodings, URLs, and text beyond ASCII.
use go_web_eid.Go.Text.{Unicode}
use go_web_eid.Go.Url.{ParseUrl}
use go_web_eid.Go.Base64.{Base64}
use go_web_eid.Certificate.X509.{X509}
use go_web_eid.Certificate.Subject.{Runes}
use go_web_eid.Signature.Verify.{Crypto}
use go_web_eid.Ocsp.Request.{OcspCodec}

pub record Platform : Type 0 where
  pub x509 : X509
  pub crypto : Crypto
  pub base64 : Base64
  pub unicode : Unicode
  pub runes : Runes
  pub parse_url : ParseUrl
  pub ocsp : OcspCodec
