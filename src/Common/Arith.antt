-- ===== src/Common/Arith.antt =====
-- The bound of a number by its number of hexadecimal digits.
use Prim.Native.Nat.{ℕ, suc, ◌*◌, ◌/◌, ◌^◌, ◌<◌}
use mathlib.Core.Path.{◌≡◌}
use native.Mathlib.Omega.{arith}
use native.Mathlib.Nat.{pow-suc}

pub div_lt_pow : (v k : ℕ) → v < 16 ^ suc k → v / 16 < 16 ^ k
div_lt_pow v k h = let e : 16 ^ suc k ≡ 16 ^ k * 16 = rw pow-suc (omega arith) in omega (arith, e)
