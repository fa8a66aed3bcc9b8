-- ===== src/Signature/Verify/Laws.antt =====
-- What an accepted signature means, by the type of the key.
use go_web_eid.Common.{
  ◌+◌, ◌/◌, ◌*◌, true, false, ◌≡◌, refl, sym, ap, subst, ◌∙◌, ◌↔◌, ◌⊎◌, Option, none, some, arith,
  length, take, drop,
}
use go_web_eid.Go.Text.{Text, Bytes, codes, has_prefix}
use go_web_eid.Go.BigInt.{set_bytes}
use go_web_eid.Exceptions.{ok}
use go_web_eid.Certificate.X509.{Certificate, PublicKey, rsa, ecdsa, other}
use go_web_eid.Signature.Algorithm.{Hash, hash_for}
use go_web_eid.Signature.Verify.{Crypto, verify_with_key, verify_hashed, verify}

-- The meaning of a signature over a digest, by the type of the key.
abbrev pub Signs : Crypto → PublicKey → Text → Hash → Bytes → Bytes → Type 0
Signs c (rsa key) algorithm h digest sig =
    ((has_prefix algorithm (codes "PS") ≡ true) × (c.verify_pss key h digest sig ≡ ok tt))
    ⊎ ((has_prefix algorithm (codes "PS") ≡ false) × (c.verify_pkcs1v15 key h digest sig ≡ ok tt))
Signs c (ecdsa bit_size point) algorithm h digest sig =
    (length sig ≡ 2 * ((bit_size + 7) / 8))
    × (c.ecdsa_verify bit_size point digest (set_bytes (take ((bit_size + 7) / 8) sig))
          (set_bytes (drop ((bit_size + 7) / 8) sig))
        ≡ true)
Signs c other algorithm h digest sig = ⊥

verify_with_key_iff :
    (c : Crypto) (key : PublicKey) (algorithm : Text) (h : Hash) (digest sig : Bytes)
    → (verify_with_key c key algorithm h digest sig ≡ ok tt) ↔ Signs c key algorithm h digest sig
unfolding verify_with_key
verify_with_key_iff c (rsa key) algorithm h digest sig = ground arith
verify_with_key_iff c (ecdsa bit_size point) algorithm h digest sig = ground arith
verify_with_key_iff c other algorithm h digest sig = ground arith

verify_hashed_iff :
    (c : Crypto) (key : PublicKey) (algorithm : Text) (signed_data sig : Bytes) (o : Option Hash)
    → (verify_hashed c key algorithm signed_data sig o ≡ ok tt) ↔ (
        (h : Hash) × (o ≡ some h)
        × (c.available h ≡ true)
        × Signs c key algorithm h (c.sum h signed_data) sig)
verify_hashed_iff c key algorithm signed_data sig none = (λ h. cc, λ (g, e, _, _). cc)
verify_hashed_iff c key algorithm signed_data sig (some h) = (
  λ accepted. (
    h,
    refl,
    ground arith,
    (verify_with_key_iff c key algorithm h (c.sum h signed_data) sig).0 (ground arith),
  ),
  λ (g, same, ready, signs). rw (ap c.available (same_hash g same) ∙ ready) (
      (verify_with_key_iff c key algorithm h (c.sum h signed_data) sig).1 (
        subst (λ f. Signs c key algorithm f (c.sum f signed_data) sig) (sym (same_hash g same))
          signs)),
)
  where
    same_hash : (g : Hash) → some h ≡ some g → h ≡ g
    same_hash g e = cc

-- A signature is accepted exactly if the algorithm is one of the nine, its hash is available, and
-- the signature is one of the certificate's key over the hash of the data: PSS for an RSA key and a
-- PS algorithm, PKCS #1 v1.5 for an RSA key and any other, and for an ECDSA key the raw halves r
-- and s, each of exactly the curve's coordinate size.
pub verify_iff :
    (c : Crypto) (cert : Certificate) (algorithm : Text) (signed_data sig : Bytes)
    → (verify c cert algorithm signed_data sig ≡ ok tt) ↔ (
        (h : Hash) × (hash_for algorithm ≡ some h)
        × (c.available h ≡ true)
        × Signs c cert.public_key algorithm h (c.sum h signed_data) sig)
unfolding verify
verify_iff c cert algorithm signed_data sig =
    verify_hashed_iff c cert.public_key algorithm signed_data sig (hash_for algorithm)
