-- ===== src/Signing/SignatureValue.antt =====
-- signing/verify.go: the raw signature of the card against the digest that was sent to it.
pub mod Laws
use go_web_eid.Common.{
  ℕ, ◌*◌, Bool, not, ◌||◌, Option, none, some, List, [], ◌∷◌, ◌==◌, if◌then◌else◌, is_empty, length,
  take, drop,
}
use go_web_eid.Go.Text.{Text, Bytes, Unicode, codes, to_upper, equal_fold}
use go_web_eid.Go.Map.{Map, lookup}
use go_web_eid.Go.BigInt.{set_bytes}
use go_web_eid.Exceptions.{GoError, plain, Result, ok, err, wrap, err_signature_value_invalid}
use go_web_eid.Certificate.X509.{Certificate, PublicKey, rsa, ecdsa, other}
use go_web_eid.Signature.Algorithm.{Hash, sha224, sha256, sha384, sha512}
use go_web_eid.Signature.Verify.{Crypto, coordinate_size}
use go_web_eid.Signing.Signer.{err_empty_signature}
use go_web_eid.Signing.HashFunction.{SignatureAlgorithm}

-- signing/verify.go
abbrev pub err_unsupported_rsa_hash : GoError
err_unsupported_rsa_hash = plain "hash function is not supported for RSA signature verification"

abbrev pub err_digest_length : GoError
err_digest_length = plain "digest length does not match the hash function"

abbrev pub err_unsupported_pub_key : GoError
err_unsupported_pub_key = plain "unsupported public key type in signing certificate"

-- hashNameToCryptoHash
abbrev pub hash_name_to_crypto_hash : Map Hash
hash_name_to_crypto_hash =
    (codes "SHA-224", sha224)
    ∷ (codes "SHA-256", sha256)
    ∷ (codes "SHA-384", sha384)
    ∷ (codes "SHA-512", sha512)
    ∷ []

-- crypto.Hash.Size, as documented.
abbrev pub hash_size : Hash → ℕ
hash_size sha224 = 28
hash_size sha256 = 32
hash_size sha384 = 48
hash_size sha512 = 64

abbrev pub invalid_value : GoError → GoError
invalid_value e = wrap err_signature_value_invalid e

abbrev pub or_invalid_value : Result (Unit {0}) → Result (Unit {0})
or_invalid_value (ok _) = ok tt
or_invalid_value (err e) = err (invalid_value e)

module _ (c : Crypto) (u : Unicode) where
  abbrev pub verify_rsa :
      Bytes → SignatureAlgorithm → Bytes → Bytes → Option Hash → Result (Unit {0})
  verify_rsa key algo digest sig none = err (invalid_value err_unsupported_rsa_hash)
  verify_rsa key algo digest sig (some h) =
      if not (hash_size h == length digest)
      then err (invalid_value err_digest_length)
      else if equal_fold u algo.padding_scheme (codes "PSS")
      then or_invalid_value (c.verify_pss key h digest sig)
      else or_invalid_value (c.verify_pkcs1v15 key h digest sig)

  -- The switch on the type of the public key.
  pub verify_value_with_key : PublicKey → SignatureAlgorithm → Bytes → Bytes → Result (Unit {0})
  verify_value_with_key (ecdsa bit_size point) algo digest sig =
      let byte_len = coordinate_size bit_size in
      if not (length sig == 2 * byte_len)
      then err (
          invalid_value
            (plain "ECDSA signature value is not raw P1363 r||s of the expected length"))
      else if not (
          c.ecdsa_verify bit_size point digest (set_bytes (take byte_len sig))
            (set_bytes (drop byte_len sig)))
      then err err_signature_value_invalid
      else ok tt
  verify_value_with_key (rsa key) algo digest sig =
      verify_rsa key algo digest sig
        (lookup (to_upper u algo.hash_function) hash_name_to_crypto_hash)
  verify_value_with_key other algo digest sig = err (invalid_value err_unsupported_pub_key)

  abbrev on_certificate :
      SignatureAlgorithm → Bytes → Bytes → Option Certificate → Result (Unit {0})
  on_certificate algo digest sig none = err (invalid_value err_empty_signature)
  on_certificate algo digest sig (some cert) =
      if is_empty digest || is_empty sig
      then err (invalid_value err_empty_signature)
      else verify_value_with_key cert.public_key algo digest sig

  -- VerifySignatureValue; a certificate that is nil is none.
  unfoldable pub verify_signature_value :
      Option Certificate → SignatureAlgorithm → Bytes → Bytes → Result (Unit {0})
  unfolding verify_value_with_key
  verify_signature_value cert algo digest sig = on_certificate algo digest sig cert
