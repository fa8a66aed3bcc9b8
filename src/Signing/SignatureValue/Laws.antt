-- ===== src/Signing/SignatureValue/Laws.antt =====
-- What a verified signature value means, by the type of the key.
use go_web_eid.Common.{
  ◌+◌, ◌/◌, ◌*◌, true, false, ◌≡◌, ◌≢◌, refl, ◌↔◌, ◌⊎◌, Option, none, some, [], ◌∷◌, arith, length,
  take, drop, subst, sym,
}
use go_web_eid.Go.Text.{Bytes, Unicode, codes, to_upper, equal_fold}
use go_web_eid.Go.Map.{lookup}
use go_web_eid.Go.BigInt.{set_bytes}
use go_web_eid.Exceptions.{ok}
use go_web_eid.Certificate.X509.{Certificate, PublicKey, rsa, ecdsa, other}
use go_web_eid.Signature.Algorithm.{Hash}
use go_web_eid.Signature.Verify.{Crypto}
use go_web_eid.Signing.HashFunction.{SignatureAlgorithm}
use go_web_eid.Signing.SignatureValue.{
  hash_name_to_crypto_hash, hash_size, verify_rsa, verify_value_with_key, verify_signature_value,
}

-- The meaning of a signature over a digest by an RSA key and a known hash function.
abbrev pub SignsRsa : Crypto → Unicode → Bytes → SignatureAlgorithm → Bytes → Bytes → Hash → Type 0
SignsRsa c u key algo digest sig h =
    (length digest ≡ hash_size h)
    × (((equal_fold u algo.padding_scheme (codes "PSS") ≡ true)
          × (c.verify_pss key h digest sig ≡ ok tt))
        ⊎ ((equal_fold u algo.padding_scheme (codes "PSS") ≡ false)
            × (c.verify_pkcs1v15 key h digest sig ≡ ok tt)))

abbrev pub SignsDigest : Crypto → Unicode → PublicKey → SignatureAlgorithm → Bytes → Bytes → Type 0
SignsDigest c u (rsa key) algo digest sig =
    (h : Hash) × (lookup (to_upper u algo.hash_function) hash_name_to_crypto_hash ≡ some h)
    × SignsRsa c u key algo digest sig h
SignsDigest c u (ecdsa bit_size point) algo digest sig =
    (length sig ≡ 2 * ((bit_size + 7) / 8))
    × (c.ecdsa_verify bit_size point digest (set_bytes (take ((bit_size + 7) / 8) sig))
          (set_bytes (drop ((bit_size + 7) / 8) sig))
        ≡ true)
SignsDigest c u other algo digest sig = ⊥

verify_rsa_iff :
    (c : Crypto) (u : Unicode) (key : Bytes) (algo : SignatureAlgorithm) (digest sig : Bytes)
    (o : Option Hash)
    → (verify_rsa c u key algo digest sig o ≡ ok tt)
      ↔ ((h : Hash) × (o ≡ some h) × SignsRsa c u key algo digest sig h)
verify_rsa_iff c u key algo digest sig none = (λ h. cc, λ (g, e, _). cc)
verify_rsa_iff c u key algo digest sig (some h) = (
  λ accepted. (h, refl, known h accepted),
  λ (g, same, signs).
      known_back h (subst (λ f. SignsRsa c u key algo digest sig f) (sym (same_hash g same)) signs),
)
  where
    same_hash : (g : Hash) → some h ≡ some g → h ≡ g
    same_hash g e = cc

    known :
        (g : Hash)
        → verify_rsa c u key algo digest sig (some g) ≡ ok tt
        → SignsRsa c u key algo digest sig g
    known g e = ground arith

    known_back :
        (g : Hash)
        → SignsRsa c u key algo digest sig g
        → verify_rsa c u key algo digest sig (some g) ≡ ok tt
    known_back g e = ground arith

verify_value_with_key_iff :
    (c : Crypto) (u : Unicode) (key : PublicKey) (algo : SignatureAlgorithm) (digest sig : Bytes)
    → (verify_value_with_key c u key algo digest sig ≡ ok tt) ↔ SignsDigest c u key algo digest sig
unfolding verify_value_with_key
verify_value_with_key_iff c u (rsa key) algo digest sig =
    verify_rsa_iff c u key algo digest sig
      (lookup (to_upper u algo.hash_function) hash_name_to_crypto_hash)
verify_value_with_key_iff c u (ecdsa bit_size point) algo digest sig = ground arith
verify_value_with_key_iff c u other algo digest sig = ground arith

-- A signature value is verified exactly if there is a certificate, neither the digest nor the value
-- is empty, and the value is a signature of the certificate's key over the digest: the raw halves
-- r and s, each of exactly the curve's coordinate size, for an ECDSA key; for an RSA key a
-- signature by the padding scheme, PSS or else PKCS #1 v1.5, with an SHA-2 function whose output
-- is as long as the digest.
pub verify_signature_value_iff :
    (c : Crypto) (u : Unicode) (o : Option Certificate) (algo : SignatureAlgorithm)
    (digest sig : Bytes)
    → (verify_signature_value c u o algo digest sig ≡ ok tt) ↔ (
        (digest ≢ [])
        × (sig ≢ [])
        × ((cert : Certificate) × (o ≡ some cert)
            × SignsDigest c u cert.public_key algo digest sig))
unfolding verify_signature_value
verify_signature_value_iff c u none algo digest sig = (λ h. cc, λ (_, _, (g, e, _)). cc)
verify_signature_value_iff c u (some cert) algo [] sig = ground arith
verify_signature_value_iff c u (some cert) algo (d ∷ ds) [] = ground arith
verify_signature_value_iff c u (some cert) algo (d ∷ ds) (b ∷ bs) = (
  λ h. (
    λ e. cc,
    λ e. cc,
    (cert, refl, (verify_value_with_key_iff c u cert.public_key algo (d ∷ ds) (b ∷ bs)).0 h),
  ),
  λ (_, _, (g, same, signs)).
      (verify_value_with_key_iff c u cert.public_key algo (d ∷ ds) (b ∷ bs)).1 (
        subst (λ e. SignsDigest c u e.public_key algo (d ∷ ds) (b ∷ bs)) (sym (same_cert g same))
          signs),
)
  where
    same_cert : (g : Certificate) → some cert ≡ some g → cert ≡ g
    same_cert g e = cc
