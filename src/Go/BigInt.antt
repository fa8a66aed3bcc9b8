-- ===== src/Go/BigInt.antt =====
-- big.Int.SetBytes and FillBytes: numbers in big-endian bytes.
pub mod Laws
use go_web_eid.Common.{ℕ, zero, suc, ◌+◌, ◌*◌, ◌/◌, ◌%◌, [], ◌∷◌, ◌++◌}
use go_web_eid.Go.Text.{Bytes}

pub set_bytes_from : ℕ → Bytes → ℕ
set_bytes_from n [] = n
set_bytes_from n (b ∷ bs) = set_bytes_from (n * 256 + b) bs

unfoldable pub set_bytes : Bytes → ℕ
unfolding set_bytes_from
set_bytes bs = set_bytes_from 0 bs

-- FillBytes into `width` bytes, of a number that fits.
pub fill_bytes : ℕ → ℕ → Bytes
fill_bytes zero n = []
fill_bytes (suc w) n = fill_bytes w (n / 256) ++ (n % 256) ∷ []
