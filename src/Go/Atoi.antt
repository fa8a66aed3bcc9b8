-- ===== src/Go/Atoi.antt =====
-- strconv.Atoi on a 64-bit platform.
use go_web_eid.Common.{
  ℕ, ◌+◌, ◌-◌, ◌*◌, ◌^◌, ℤ, pos, negsuc, Option, none, some, [], ◌∷◌, ◌&&◌, leb, ◌==◌,
  if◌then◌else◌,
}
use go_web_eid.Go.Text.{Text}

-- The decimal digits of a text, added to those already read.
unfoldable pub digits_from : ℕ → Text → Option ℕ
digits_from n [] = some n
digits_from n (c ∷ s) =
    let rest = digits_from (n * 10 + (c - b'0')) s in
    if leb b'0' c && leb c b'9' then rest else none

unfoldable pub digits : Text → Option ℕ
unfolding digits_from
digits [] = none
digits (c ∷ s) = digits_from 0 (c ∷ s)

abbrev pub negative : ℕ → ℤ
negative n = if n == 0 then pos 0 else negsuc (n - 1)

abbrev pub as_positive : Option ℕ → Option ℤ
as_positive none = none
as_positive (some n) = if leb n (2 ^ 63 - 1) then some (pos n) else none

abbrev pub as_negative : Option ℕ → Option ℤ
as_negative none = none
as_negative (some n) = if leb n (2 ^ 63) then some (negative n) else none

-- A sign, and then digits whose value fits; `none` is a syntax or range error.
unfoldable pub atoi : Text → Option ℤ
unfolding digits
atoi [] = none
atoi (c ∷ s) =
    if c == b'-'
    then as_negative (digits s)
    else if c == b'+'
    then as_positive (digits s)
    else as_positive (digits (c ∷ s))
