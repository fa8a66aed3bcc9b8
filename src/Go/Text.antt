-- ===== src/Go/Text.antt =====
-- A Go string or byte slice is the list of its bytes. The functions of `strings` and `strconv`
-- that the program calls; what they do with texts beyond ASCII comes from an interface.
pub mod Laws
pub mod Scheme
use Prim.Native.Char.{code}
use Prim.Native.String.{String}
use go_web_eid.Common.{
  ℕ, ◌+◌, ◌-◌, ◌≡◌, Bool, true, false, ◌&&◌, ◌||◌, List, [], ◌∷◌, map, Option, none, some, arith,
  ltb, leb, ◌==◌, if◌then◌else◌, list_eq, list_eq_refl, list_eq_sound, ◌↔◌,
}

abbrev pub Text : Type 0
Text = List ℕ

abbrev pub Bytes : Type 0
Bytes = List ℕ

-- The bytes of an ASCII literal.
abbrev pub codes : String → Text
codes String.[] = []
codes (String.◌∷◌ c s) = code c ∷ codes s

-- Go's `==` on strings, and `bytes.Equal`.
unfoldable pub text_eq : Text → Text → Bool
text_eq = list_eq

pub text_eq_iff : (s t : Text) → (text_eq s t ≡ true) ↔ (s ≡ t)
unfolding text_eq
text_eq_iff s t = (list_eq_sound s t, λ e. ground (arith, list_eq_refl s))

-- What `strings` answers where its ASCII paths do not apply.
pub record Unicode : Type 0 where
  pub lower : Text → Text
  pub upper : Text → Text
  pub trim : Text → Text
  pub fold_eq : Text → Text → Bool

unfoldable pub all_ascii : Text → Bool
all_ascii [] = true
all_ascii (c ∷ s) = ltb c 128 && all_ascii s

abbrev pub lower_byte : ℕ → ℕ
lower_byte c = if leb b'A' c && leb c b'Z' then c + 32 else c

abbrev pub upper_byte : ℕ → ℕ
upper_byte c = if leb b'a' c && leb c b'z' then c - 32 else c

-- strings.ToLower
unfoldable pub to_lower : Unicode → Text → Text
unfolding all_ascii
to_lower u s = if all_ascii s then map lower_byte s else u.lower s

-- strings.ToUpper
unfoldable pub to_upper : Unicode → Text → Text
unfolding all_ascii
to_upper u s = if all_ascii s then map upper_byte s else u.upper s

-- strings.EqualFold
unfoldable pub equal_fold : Unicode → Text → Text → Bool
unfolding all_ascii text_eq
equal_fold u s t =
    if all_ascii s && all_ascii t
    then text_eq (map lower_byte s) (map lower_byte t)
    else u.fold_eq s t

abbrev pub is_space : ℕ → Bool
is_space c = (leb 9 c && leb c 13) || c == 32

pub trim_left_space : Text → Text
trim_left_space [] = []
trim_left_space (c ∷ s) = let rest = trim_left_space s in if is_space c then rest else c ∷ s

-- A byte in front of a text that is trimmed on the right already.
abbrev pub keep_unless_last_space : ℕ → Text → Text
keep_unless_last_space c [] = if is_space c then [] else c ∷ []
keep_unless_last_space c (d ∷ s) = c ∷ d ∷ s

pub trim_right_space : Text → Text
trim_right_space [] = []
trim_right_space (c ∷ s) = keep_unless_last_space c (trim_right_space s)

-- strings.TrimSpace
unfoldable pub trim_space : Unicode → Text → Text
unfolding all_ascii trim_left_space trim_right_space
trim_space u s = if all_ascii s then trim_right_space (trim_left_space s) else u.trim s

-- strings.HasPrefix
unfoldable pub has_prefix : Text → Text → Bool
has_prefix s [] = true
has_prefix [] (p ∷ ps) = false
has_prefix (c ∷ s) (p ∷ ps) = c == p && has_prefix s ps

-- The rest behind a prefix, if it is one.
unfoldable pub strip_prefix : Text → Text → Option Text
strip_prefix s [] = some s
strip_prefix [] (p ∷ ps) = none
strip_prefix (c ∷ s) (p ∷ ps) = if c == p then strip_prefix s ps else none

-- strings.TrimPrefix
unfoldable pub trim_prefix : Text → Text → Text
unfolding strip_prefix
trim_prefix s p = elim (strip_prefix s p) [ none ↦ s | some rest ↦ rest ]

-- Does the text end in the byte?
unfoldable pub ends_with : ℕ → Text → Bool
ends_with b [] = false
ends_with b (c ∷ []) = c == b
ends_with b (c ∷ d ∷ s) = ends_with b (d ∷ s)

-- strings.TrimSuffix at a suffix of one byte.
unfoldable pub trim_suffix : ℕ → Text → Text
trim_suffix b [] = []
trim_suffix b (c ∷ []) = if c == b then [] else c ∷ []
trim_suffix b (c ∷ d ∷ s) = c ∷ trim_suffix b (d ∷ s)

-- strings.Contains at one byte.
unfoldable pub contains_byte : ℕ → Text → Bool
contains_byte b [] = false
contains_byte b (c ∷ s) = c == b || contains_byte b s

-- The part before the first byte `b`, as strings.Cut returns it.
unfoldable pub cut_before : ℕ → Text → Text
cut_before b [] = []
cut_before b (c ∷ s) = if c == b then [] else c ∷ cut_before b s

-- A byte in front of the first part.
abbrev pub onto_first : ℕ → List Text → List Text
onto_first c [] = (c ∷ []) ∷ []
onto_first c (p ∷ ps) = (c ∷ p) ∷ ps

-- strings.Split at a separator of one byte.
pub split : ℕ → Text → List Text
split b [] = [] ∷ []
split b (c ∷ s) = if c == b then [] ∷ split b s else onto_first c (split b s)

-- strings.Contains at "://".
unfoldable pub contains_scheme : Text → Bool
unfolding has_prefix
contains_scheme [] = false
contains_scheme (c ∷ s) = has_prefix (c ∷ s) (codes "://") || contains_scheme s
