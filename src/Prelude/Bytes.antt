-- ===== src/Prelude/Bytes.antt =====
-- Numbers as bytes, least significant first (`to_le_bytes`) and most significant first.
use Prim.Native.Nat.{ℕ, zero, suc, ◌+◌, ◌*◌, ◌/◌, ◌%◌, ◌^◌, ◌<◌}
use mathlib.Core.Path.{◌≡◌, refl, ap, ◌∙◌}
use mathlib.Core.List.{List, [], ◌∷◌, reverse, reverse-reverse}
use native.Mathlib.Nat.{pow-suc}
use native.Mathlib.Omega.{arith}
use solana_bpf_simulator.Prelude.Lists.{length, All, length-reverse}

unfoldable pub le_bytes : ℕ → ℕ → List ℕ
le_bytes zero v = []
le_bytes (suc w) v = (v % 256) ∷ le_bytes w (v / 256)

unfoldable pub from_le_bytes : List ℕ → ℕ
from_le_bytes [] = 0
from_le_bytes (b ∷ bs) = b + 256 * from_le_bytes bs

pub length-le_bytes : (w v : ℕ) → length (le_bytes w v) ≡ w
unfolding le_bytes
length-le_bytes zero v = refl
length-le_bytes (suc w) v = ap suc (length-le_bytes w (v / 256))

pub from_le_bytes-le_bytes : (w v : ℕ) → v < 256 ^ w → from_le_bytes (le_bytes w v) ≡ v
unfolding le_bytes from_le_bytes
from_le_bytes-le_bytes zero v h = omega arith
from_le_bytes-le_bytes (suc w) v h =
    omega (arith, from_le_bytes-le_bytes w (v / 256) (omega (arith, pow-suc 256 w)))

-- Every number that `to_le_bytes` yields is a byte.
pub le_bytes-IsByte : (w v : ℕ) → All (λ b. b < 256) (le_bytes w v)
unfolding le_bytes
le_bytes-IsByte zero v = tt
le_bytes-IsByte (suc w) v = (omega arith, le_bytes-IsByte w (v / 256))

unfoldable pub be_bytes : ℕ → ℕ → List ℕ
be_bytes w v = reverse (le_bytes w v)

unfoldable pub from_be_bytes : List ℕ → ℕ
from_be_bytes bs = from_le_bytes (reverse bs)

pub length-be_bytes : (w v : ℕ) → length (be_bytes w v) ≡ w
unfolding be_bytes
length-be_bytes w v = length-reverse (le_bytes w v) ∙ length-le_bytes w v

pub from_be_bytes-be_bytes : (w v : ℕ) → v < 256 ^ w → from_be_bytes (be_bytes w v) ≡ v
unfolding be_bytes from_be_bytes
from_be_bytes-be_bytes w v h = rw reverse-reverse (from_le_bytes-le_bytes w v h)
