-- ===== src/Go/BigInt/Laws.antt =====
-- SetBytes undoes FillBytes.
use go_web_eid.Common.{
  ℕ, zero, suc, ◌+◌, ◌*◌, ◌/◌, ◌%◌, ◌^◌, ◌<◌, ◌≡◌, refl, [], ◌∷◌, ◌++◌, arith, length,
  length-append,
}
use go_web_eid.Go.Text.{Bytes}
use go_web_eid.Go.BigInt.{set_bytes_from, set_bytes, fill_bytes}

set_bytes_from-append :
    (m : ℕ) (bs : Bytes) (b : ℕ) → set_bytes_from m (bs ++ b ∷ []) ≡ set_bytes_from m bs * 256 + b
unfolding set_bytes_from
set_bytes_from-append m [] b = refl
set_bytes_from-append m (c ∷ bs) b = set_bytes_from-append (m * 256 + c) bs b

pub length-fill_bytes : (w n : ℕ) → length (fill_bytes w n) ≡ w
unfolding fill_bytes
length-fill_bytes zero n = refl
length-fill_bytes (suc w) n =
    ground (
      arith,
      length-append (fill_bytes w (n / 256)) ((n % 256) ∷ []),
      length-fill_bytes w (n / 256),
    )

pub set_bytes-fill_bytes : (w n : ℕ) → n < 256 ^ w → set_bytes (fill_bytes w n) ≡ n
unfolding set_bytes set_bytes_from fill_bytes
set_bytes-fill_bytes zero n h = omega arith
set_bytes-fill_bytes (suc w) n h =
    let fits : n / 256 < 256 ^ w = omega arith in
    ground (
      arith,
      set_bytes_from-append 0 (fill_bytes w (n / 256)) (n % 256),
      set_bytes-fill_bytes w (n / 256) fits,
    )
