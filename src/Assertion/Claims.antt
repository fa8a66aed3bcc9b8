-- ===== src/Assertion/Claims.antt =====
-- assertion/assertion.go: the claims and the protected header. encoding/json at both is an
-- interface.
use go_web_eid.Common.{ℤ}
use go_web_eid.Go.Text.{Text, Bytes}
use go_web_eid.Exceptions.{Result}

-- Subject
pub record Subject : Type 0 where
  pub national_id : Text
  pub country : Text
  pub given_name : Text
  pub family_name : Text
  pub loa : Text

-- Claims
pub record Claims : Type 0 where
  pub issuer : Text
  pub audience : Text
  pub subject : Text
  pub issued_at : ℤ
  pub expiry : ℤ
  pub jwt_id : Text
  pub national_id : Text
  pub country : Text
  pub given_name : Text
  pub family_name : Text
  pub loa : Text
  pub login_method : Text

-- jwsHeader
pub record JwsHeader : Type 0 where
  pub alg : Text
  pub typ : Text
  pub kid : Text

-- json.Marshal and json.Unmarshal
pub record ClaimsJson : Type 0 where
  pub marshal_header : JwsHeader → Result Bytes
  pub unmarshal_header : Bytes → Result JwsHeader
  pub marshal_claims : Claims → Result Bytes
  pub unmarshal_claims : Bytes → Result Claims
