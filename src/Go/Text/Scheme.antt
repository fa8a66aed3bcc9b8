-- ===== src/Go/Text/Scheme.antt =====
-- strings.HasPrefix, and strings.Contains at "://".
use go_web_eid.Common.{ℕ, true, ◌≡◌, refl, ap, ◌↔◌, ◌⊎◌, inl, inr, [], ◌∷◌, ◌++◌, arith, Bool-cases}
use go_web_eid.Go.Text.{Text, codes, has_prefix, contains_scheme}

has_prefix_iff : (s p : Text) → (has_prefix s p ≡ true) ↔ ((b : Text) × (s ≡ p ++ b))
unfolding has_prefix
has_prefix_iff s [] = (λ h. (s, refl), λ (b, same). refl)
has_prefix_iff [] (p ∷ ps) = (λ h. cc, λ (b, same). cc)
has_prefix_iff (c ∷ s) (p ∷ ps) = (
  λ h.
      let (b, same) = (has_prefix_iff s ps).0 (ground arith) in
      let first : c ≡ p = ground arith in (b, cc),
  λ (b, same).
      let first : c ≡ p = cc in
      let rest : s ≡ ps ++ b = cc in ground (arith, (has_prefix_iff s ps).1 (b, rest)),
)

-- "://" occurs in the text.
abbrev pub HasScheme : Text → Type 0
HasScheme s = (a : Text) × (b : Text) × (s ≡ a ++ codes "://" ++ b)

HasScheme-[] : ¬ HasScheme []
HasScheme-[] ([], b, same) = cc
HasScheme-[] (x ∷ a, b, same) = cc

HasScheme-∷ :
    (c : ℕ) (s : Text) → HasScheme (c ∷ s) → (has_prefix (c ∷ s) (codes "://") ≡ true) ⊎ HasScheme s
HasScheme-∷ c s ([], b, same) = inl ((has_prefix_iff (c ∷ s) (codes "://")).1 (b, same))
HasScheme-∷ c s (x ∷ a, b, same) = inr (a, b, cc)

-- A text contains "://" exactly if it is that between two others.
pub contains_scheme_iff : (s : Text) → (contains_scheme s ≡ true) ↔ HasScheme s
unfolding contains_scheme
contains_scheme_iff [] = (λ h. cc, λ has. absurd (HasScheme-[] has))
contains_scheme_iff (c ∷ s) = (
  λ h. elim (Bool-cases (has_prefix (c ∷ s) (codes "://"))) [
    | inl here ↦ let (b, same) = (has_prefix_iff (c ∷ s) (codes "://")).0 here in ([], b, same)
    | inr not_here ↦
        let (a, b, same) = (contains_scheme_iff s).0 (ground arith) in
        (c ∷ a, b, ap (λ t. c ∷ t) same)
  ],
  λ has. elim (HasScheme-∷ c s has) [
    | inl here ↦ ground arith
    | inr later ↦ ground (arith, (contains_scheme_iff s).1 later)
  ],
)
