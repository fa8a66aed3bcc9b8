-- ===== src/Signing/HashFunction/Laws.antt =====
-- The hash function that is chosen, and the algorithm that goes with it.
use go_web_eid.Common.{
  true, ◌≡◌, refl, sym, subst, ◌↔◌, ◌⊎◌, inl, inr, List, [], ◌∷◌, arith, Any, Never, Bool-cases, In,
  here, there, map, ℕ,
}
use go_web_eid.Go.Text.{
  Text, Unicode, text_eq_iff, to_upper, equal_fold, all_ascii, upper_byte, lower_byte,
}
use go_web_eid.Exceptions.{ok}
use go_web_eid.Signing.HashFunction.{
  SignatureAlgorithm, contains_text, offered, first_offered, select_hash_function,
  pick_algorithm_for_hash,
}

-- The card offers the hash function, up to case.
abbrev pub IsOffered : Unicode → List SignatureAlgorithm → Text → Type 0
IsOffered u supported want = Any (λ s. to_upper u s.hash_function ≡ to_upper u want) supported

-- The text is the first of the list that has the property.
abbrev pub IsFirst : (Text → Type 0) → Text → List Text → Type 0
IsFirst P want [] = Never
IsFirst P want (t ∷ ts) = (P t × (want ≡ t)) ⊎ ((P t → Never {0}) × IsFirst P want ts)

contains_offered_iff :
    (u : Unicode) (supported : List SignatureAlgorithm) (want : Text)
    → (contains_text (to_upper u want) (offered u supported) ≡ true) ↔ IsOffered u supported want
unfolding contains_text offered
contains_offered_iff u [] want = (λ h. absurd (ground arith), λ h. absurd (elim h [ ]))
contains_offered_iff u (s ∷ supported) want = ground (
  arith,
  contains_offered_iff u supported want,
  text_eq_iff (to_upper u s.hash_function) (to_upper u want),
)

first_offered_iff :
    (u : Unicode) (supported : List SignatureAlgorithm) (preference : List Text) (want : Text)
    → (first_offered u preference (offered u supported) ≡ ok want)
      ↔ IsFirst (IsOffered u supported) want preference
unfolding first_offered
first_offered_iff u supported [] want = (λ h. absurd (ground arith), λ h. absurd (elim h [ ]))
first_offered_iff u supported (w ∷ preference) want =
    elim (Bool-cases (contains_text (to_upper u w) (offered u supported))) [
      | inl e ↦
          let has = (contains_offered_iff u supported w).0 e in
          (
            λ h. inl (has, ground arith),
            λ h. elim h [
              | inl (_, same) ↦ ground arith
              | inr (lacks, _) ↦ absurd (elim (lacks has) [ ])
            ],
          )
      | inr e ↦
          let lacks : IsOffered u supported w → Never {0} =
            λ has. absurd (ground (arith, (contains_offered_iff u supported w).1 has)) in
          (
            λ h. inr (lacks, (first_offered_iff u supported preference want).0 (ground arith)),
            λ h. elim h [
              | inl (has, _) ↦ absurd (elim (lacks has) [ ])
              | inr (_, later) ↦
                  ground (arith, (first_offered_iff u supported preference want).1 later)
            ],
          )
    ]

-- SelectHashFunction answers the first configured preference that the card offers, up to case.
select_hash_function_iff :
    (u : Unicode) (preference : List Text) (supported : List SignatureAlgorithm) (want : Text)
    → (select_hash_function u preference supported ≡ ok want)
      ↔ IsFirst (IsOffered u supported) want preference
unfolding select_hash_function
select_hash_function_iff u preference supported want = first_offered_iff u supported preference want

upper-lower_byte : (c d : ℕ) → upper_byte c ≡ upper_byte d → lower_byte c ≡ lower_byte d
upper-lower_byte c d h = ground arith

map-upper-lower :
    (s t : Text) → map upper_byte s ≡ map upper_byte t → map lower_byte s ≡ map lower_byte t
map-upper-lower [] [] h = refl
map-upper-lower [] (d ∷ t) h = absurd (ground arith)
map-upper-lower (c ∷ s) [] h = absurd (ground arith)
map-upper-lower (c ∷ s) (d ∷ t) h = ground (arith, upper-lower_byte c d, map-upper-lower s t)

equal_fold-of_to_upper :
    (u : Unicode) (s t : Text)
    → all_ascii s ≡ true
    → all_ascii t ≡ true
    → to_upper u s ≡ to_upper u t
    → equal_fold u s t ≡ true
unfolding to_upper equal_fold
equal_fold-of_to_upper u s t a b h =
    ground (arith, map-upper-lower s t, text_eq_iff (map lower_byte s) (map lower_byte t))

-- Every hash function that the card names is written in ASCII.
abbrev pub IsAscii : List SignatureAlgorithm → Type 0
IsAscii [] = Unit {0}
IsAscii (s ∷ supported) = (all_ascii s.hash_function ≡ true) × IsAscii supported

pick_offered :
    (u : Unicode) (want : Text) (supported : List SignatureAlgorithm)
    → all_ascii want ≡ true
    → IsAscii supported
    → IsOffered u supported want
    → In (pick_algorithm_for_hash u want supported) supported
      × (equal_fold u (pick_algorithm_for_hash u want supported).hash_function want ≡ true)
unfolding pick_algorithm_for_hash
pick_offered u want [] ascii names has = absurd (elim has [ ])
pick_offered u want (s ∷ supported) ascii names has =
    elim (Bool-cases (equal_fold u s.hash_function want)) [
      | inl e ↦ rw e (here, e)
      | inr e ↦ elim has [
        | inl same ↦
            absurd
              (ground (arith, equal_fold-of_to_upper u s.hash_function want names.0 ascii same))
        | inr later ↦
            let (place, matches) = pick_offered u want supported ascii names.1 later in
            rw e (there place, matches)
      ]
    ]

IsFirst-holds : (P : Text → Type 0) (want : Text) (ts : List Text) → IsFirst P want ts → P want
IsFirst-holds P want [] h = absurd (elim h [ ])
IsFirst-holds P want (t ∷ ts) (inl (h, same)) = subst P (sym same) h
IsFirst-holds P want (t ∷ ts) (inr (_, later)) = IsFirst-holds P want ts later

-- If the card writes its hash functions in ASCII, then the algorithm that pickAlgorithmForHash
-- answers for the selected hash function, where that one is in ASCII too, is one that the card
-- offered, for that hash function up to case.
pub pick-select :
    (u : Unicode) (preference : List Text) (supported : List SignatureAlgorithm) (want : Text)
    → IsAscii supported
    → all_ascii want ≡ true
    → select_hash_function u preference supported ≡ ok want
    → In (pick_algorithm_for_hash u want supported) supported
      × (equal_fold u (pick_algorithm_for_hash u want supported).hash_function want ≡ true)
pick-select u preference supported want names ascii h = pick_offered u want supported ascii names (
    IsFirst-holds (IsOffered u supported) want preference
      ((select_hash_function_iff u preference supported want).0 h))
