-- ===== src/Signature/Verify.antt =====
-- signature/verify.go: verification with the certificate's key. The primitives are an interface.
pub mod Laws
use go_web_eid.Common.{
  ℕ, ◌+◌, ◌*◌, ◌/◌, Bool, not, Option, none, some, List, ◌==◌, if◌then◌else◌, length, take, drop,
}
use go_web_eid.Go.Text.{Text, Bytes, codes, has_prefix}
use go_web_eid.Go.BigInt.{set_bytes}
use go_web_eid.Exceptions.{
  plain, GoError, Result, ok, err, wrap, err_token_unsupported_format, err_token_signature_invalid,
}
use go_web_eid.Certificate.X509.{Certificate, PublicKey, rsa, ecdsa, other}
use go_web_eid.Signature.Algorithm.{Hash, hash_for}

-- signature/errors.go
abbrev err_unsupported_key : GoError
err_unsupported_key = plain "unsupported public key type"

abbrev err_invalid_p1363_length : GoError
err_invalid_p1363_length = plain "invalid ECDSA P1363 signature length"

abbrev err_hash_unavailable : GoError
err_hash_unavailable = plain "hash function is not available"

-- crypto.Hash, crypto/rsa and crypto/ecdsa
pub record Crypto : Type 0 where
  pub available : Hash → Bool
  pub sum : Hash → Bytes → Bytes
  pub verify_pss : Bytes → Hash → Bytes → Bytes → Result (Unit {0})
  pub verify_pkcs1v15 : Bytes → Hash → Bytes → Bytes → Result (Unit {0})
  pub ecdsa_verify : ℕ → Bytes → Bytes → ℕ → ℕ → Bool

-- The size of a coordinate: (BitSize + 7) / 8
abbrev pub coordinate_size : ℕ → ℕ
coordinate_size bit_size = (bit_size + 7) / 8

-- splitP1363
pub split_p1363 : Bytes → ℕ → Result (ℕ × ℕ)
split_p1363 sig bit_size =
    let byte_len = coordinate_size bit_size in
    if not (length sig == 2 * byte_len)
    then err err_invalid_p1363_length
    else ok (set_bytes (take byte_len sig), set_bytes (drop byte_len sig))

abbrev pub invalid : GoError → GoError
invalid e = wrap err_token_signature_invalid e

abbrev pub or_invalid : Result (Unit {0}) → Result (Unit {0})
or_invalid (ok _) = ok tt
or_invalid (err e) = err (invalid e)

module _ (c : Crypto) where
  abbrev verify_split : ℕ → Bytes → Bytes → Result (ℕ × ℕ) → Result (Unit {0})
  verify_split bit_size point digest (err e) = err (invalid e)
  verify_split bit_size point digest (ok (r, s)) =
      if not (c.ecdsa_verify bit_size point digest r s)
      then err err_token_signature_invalid
      else ok tt

  -- The switch on the type of the public key.
  unfoldable pub verify_with_key : PublicKey → Text → Hash → Bytes → Bytes → Result (Unit {0})
  unfolding split_p1363
  verify_with_key (rsa key) algorithm h digest sig =
      if has_prefix algorithm (codes "PS")
      then or_invalid (c.verify_pss key h digest sig)
      else or_invalid (c.verify_pkcs1v15 key h digest sig)
  verify_with_key (ecdsa bit_size point) algorithm h digest sig =
      verify_split bit_size point digest (split_p1363 sig bit_size)
  verify_with_key other algorithm h digest sig = err (invalid err_unsupported_key)

  abbrev pub verify_hashed : PublicKey → Text → Bytes → Bytes → Option Hash → Result (Unit {0})
  verify_hashed key algorithm signed_data sig none = err err_token_unsupported_format
  verify_hashed key algorithm signed_data sig (some h) =
      if not (c.available h)
      then err (invalid err_hash_unavailable)
      else verify_with_key key algorithm h (c.sum h signed_data) sig

  -- Verify
  unfoldable pub verify : Certificate → Text → Bytes → Bytes → Result (Unit {0})
  verify cert algorithm signed_data sig =
      verify_hashed cert.public_key algorithm signed_data sig (hash_for algorithm)
