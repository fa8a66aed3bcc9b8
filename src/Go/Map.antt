-- ===== src/Go/Map.antt =====
-- Go's map[string]V: a list of entries, each key once. Iteration order never matters below.
use go_web_eid.Common.{Bool, ◌≡◌, refl, Option, none, some, List, [], ◌∷◌, arith, if◌then◌else◌}
use go_web_eid.Go.Text.{Text, text_eq, text_eq_iff}

abbrev pub Map {ℓ} : Type ℓ → Type ℓ
Map V = List (Text × V)

module _ {ℓ} {V : Type ℓ} where
  -- v, ok := m[k]
  unfoldable pub lookup : Text → Map V → Option V
  lookup k [] = none
  lookup k ((j, v) ∷ m) = if text_eq j k then some v else lookup k m

  -- m[k] = v
  unfoldable pub insert : Text → V → Map V → Map V
  insert k v [] = (k, v) ∷ []
  insert k v ((j, w) ∷ m) = if text_eq j k then (k, v) ∷ m else (j, w) ∷ insert k v m

  -- delete(m, k)
  pub delete : Text → Map V → Map V
  delete k [] = []
  delete k ((j, v) ∷ m) = let rest = delete k m in if text_eq j k then rest else (j, v) ∷ rest

  -- for k, v := range m { if drop(v) { delete(m, k) } }
  unfoldable pub delete_if : (V → Bool) → Map V → Map V
  delete_if drop [] = []
  delete_if drop ((j, v) ∷ m) =
      let rest = delete_if drop m in if drop v then rest else (j, v) ∷ rest

  abbrev pub Absent : Text → Map V → Type ℓ
  Absent k m = lookup k m ≡ none

  -- Each key stands once.
  abbrev pub IsMap : Map V → Type ℓ
  IsMap [] = Unit
  IsMap ((j, v) ∷ m) = Absent j m × IsMap m

  pub lookup-insert :
      (k j : Text) (v : V) (m : Map V)
      → lookup j (insert k v m) ≡ (if text_eq k j then some v else lookup j m)
  unfolding lookup insert
  lookup-insert k j v [] = refl
  lookup-insert k j v ((i, w) ∷ m) =
      ground (arith, text_eq_iff k j, text_eq_iff i k, text_eq_iff i j, lookup-insert k j v m)

  pub lookup-delete :
      (k j : Text) (m : Map V) → lookup j (delete k m) ≡ (if text_eq k j then none else lookup j m)
  unfolding lookup delete
  lookup-delete k j [] = ground arith
  lookup-delete k j ((i, w) ∷ m) =
      ground (arith, text_eq_iff k j, text_eq_iff i k, text_eq_iff i j, lookup-delete k j m)

  abbrev pub unless : (V → Bool) → Option V → Option V
  unless drop none = none
  unless drop (some v) = if drop v then none else some v

  pub lookup-delete_if :
      (drop : V → Bool) (k : Text) (m : Map V)
      → IsMap m
      → lookup k (delete_if drop m) ≡ unless drop (lookup k m)
  unfolding lookup delete_if
  lookup-delete_if drop k [] h = refl
  lookup-delete_if drop k ((j, v) ∷ m) h =
      ground (arith, text_eq_iff j k, lookup-delete_if drop k m)

  pub insert-IsMap : (k : Text) (v : V) (m : Map V) → IsMap m → IsMap (insert k v m)
  unfolding lookup insert
  insert-IsMap k v [] h = (refl, tt)
  insert-IsMap k v ((j, w) ∷ m) h =
      ground (arith, text_eq_iff j k, text_eq_iff k j, insert-IsMap k v m, lookup-insert k j v m)

  pub delete-IsMap : (k : Text) (m : Map V) → IsMap m → IsMap (delete k m)
  unfolding lookup delete
  delete-IsMap k [] h = tt
  delete-IsMap k ((j, w) ∷ m) h = ground (arith, delete-IsMap k m, lookup-delete k j m)

  pub delete_if-IsMap : (drop : V → Bool) (m : Map V) → IsMap m → IsMap (delete_if drop m)
  unfolding lookup delete_if
  delete_if-IsMap drop [] h = tt
  delete_if-IsMap drop ((j, w) ∷ m) h =
      ground (arith, delete_if-IsMap drop m, lookup-delete_if drop j m)
