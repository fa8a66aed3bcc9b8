-- ===== src/Go/Base64.antt =====
-- encoding/base64, as an interface: StdEncoding and RawURLEncoding.
use go_web_eid.Common.{false, ◌≡◌}
use go_web_eid.Go.Text.{Text, Bytes, contains_byte}
use go_web_eid.Exceptions.{Result, ok}

pub record Base64 : Type 0 where
  pub encode_std : Bytes → Text
  pub decode_std : Text → Result Bytes
  pub encode_raw_url : Bytes → Text
  pub decode_raw_url : Text → Result Bytes

-- Documented: decoding undoes encoding, and the URL alphabet has no dot.
pub record IsCodec (b : Base64) : Type 0 where
  pub decode-encode_std : (bs : Bytes) → b.decode_std (b.encode_std bs) ≡ ok bs
  pub decode-encode_raw_url : (bs : Bytes) → b.decode_raw_url (b.encode_raw_url bs) ≡ ok bs
  pub no_dot : (bs : Bytes) → contains_byte b'.' (b.encode_raw_url bs) ≡ false
