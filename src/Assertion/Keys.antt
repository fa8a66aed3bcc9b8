-- ===== src/Assertion/Keys.antt =====
-- assertion/assertion.go: signing keys and sets of verification keys. Keys and their operations
-- are an interface; the entropy that a signature reads is an argument.
use go_web_eid.Common.{ℕ, Bool, Option, none, some, [], is_empty, if◌then◌else◌}
use go_web_eid.Go.Text.{Text, Bytes}
use go_web_eid.Go.Map.{Map, lookup, insert}
use go_web_eid.Exceptions.{Result, ok, err, plain, ◌>>=◌}

-- crypto/ecdsa and crypto/sha256
pub record Ecdsa (Private Public : Type 0) : Type 0 where
  pub public_key : Private → Public
  pub is_p256 : Private → Bool
  pub sum256 : Bytes → Bytes
  pub sign : Private → Bytes → Bytes → Result (ℕ × ℕ)
  pub verify : Public → Bytes → ℕ → ℕ → Bool

-- SigningKey; no private key is nil.
pub record SigningKey (Private : Type 0) : Type 0 where
  pub kid : Text
  pub key : Option Private

-- GenerateKey, with what ecdsa.GenerateKey answers for P-256
unfoldable pub generate_key :
    {Private : Type 0} → Text → Result Private → Result (SigningKey Private)
generate_key kid generated =
    if is_empty kid
    then err (plain "assertion: key id is required")
    else do k ← generated; ok (record { kid = kid; key = some k })

-- KeySet
pub record KeySet (Public : Type 0) : Type 0 where
  pub keys : Map Public

module _ {Public : Type 0} where
  -- NewKeySet
  unfoldable pub new_key_set : KeySet Public
  new_key_set = record { keys = [] }

  abbrev pub add_key : KeySet Public → Text → Option Public → KeySet Public
  add_key ks kid none = ks
  add_key ks kid (some pub_key) =
      if is_empty kid then ks else record ks { keys = insert kid pub_key ks.keys }

  -- Add
  unfoldable pub add : KeySet Public → Text → Option Public → KeySet Public
  add ks kid o = add_key ks kid o

  -- get
  unfoldable pub get : KeySet Public → Text → Option Public
  get ks kid = lookup kid ks.keys
