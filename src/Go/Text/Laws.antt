-- ===== src/Go/Text/Laws.antt =====
-- Splitting a text at a byte, and joining the parts.
use go_web_eid.Common.{ℕ, false, ◌≡◌, refl, List, [], ◌∷◌, ◌++◌, arith, Bool-cases, inl, inr, ◌==◌}
use go_web_eid.Go.Text.{Text, contains_byte, onto_first, split}

pub split-eq-one : (b : ℕ) (s : Text) → contains_byte b s ≡ false → split b s ≡ s ∷ []
unfolding contains_byte split
split-eq-one b [] h = refl
split-eq-one b (c ∷ s) h = ground (arith, split-eq-one b s)

pub split-append :
    (b : ℕ) (s rest : Text) → contains_byte b s ≡ false → split b (s ++ b ∷ rest) ≡ s ∷ split b rest
unfolding contains_byte split
split-append b [] rest h = ground arith
split-append b (c ∷ s) rest h = ground (arith, split-append b s rest)

-- strings.Join
abbrev pub join : ℕ → List Text → Text
join b [] = []
join b (p ∷ []) = p
join b (p ∷ q ∷ ps) = p ++ b ∷ join b (q ∷ ps)

split-cons : (b : ℕ) (s : Text) → (p : Text) × (ps : List Text) × (split b s ≡ p ∷ ps)
unfolding split
split-cons b [] = ([], [], refl)
split-cons b (c ∷ s) = elim (Bool-cases (c == b)) [
  | inl same ↦ ([], split b s, rw same)
  | inr other ↦ let (p, ps, e) = split-cons b s in (c ∷ p, ps, rw (other, e))
]

join-onto_first :
    (b c : ℕ) (p : Text) (ps : List Text) → join b (onto_first c (p ∷ ps)) ≡ c ∷ join b (p ∷ ps)
join-onto_first b c p [] = refl
join-onto_first b c p (q ∷ ps) = refl

-- Joining undoes splitting.
pub join-split : (b : ℕ) (s : Text) → join b (split b s) ≡ s
unfolding split
join-split b [] = refl
join-split b (c ∷ s) =
    let (p, ps, e) = split-cons b s in ground (arith, join-split b s, join-onto_first b c p ps)
