-- ===== src/Common/Bits.antt =====
-- Masks on one byte as arithmetic. Each law is a table over all bytes, checked by evaluation.
use Prim.Native.Nat.{ℕ, zero, suc, ◌*◌, ◌/◌, ◌%◌, ◌<◌, bit_and}
use mathlib.Core.Path.{◌≡◌, refl}
use mathlib.Core.Bool.{Bool, true, ◌&&◌}
use native.Mathlib.Omega.{arith}
use heplify.Common.Tests.{◌==◌}

every_below : (ℕ → Bool) → ℕ → Bool
every_below p zero = true
every_below p (suc n) = p n && every_below p n

every_below-holds : (p : ℕ → Bool) (n k : ℕ) → every_below p n ≡ true → k < n → p k ≡ true
unfolding every_below
every_below-holds p zero k all lt = elim lt [ ]
every_below-holds p (suc n) k all lt = ground (arith, every_below-holds p n k)

table : (f g : ℕ → ℕ) → every_below (λ b. f b == g b) 256 ≡ true → (b : ℕ) → b < 256 → f b ≡ g b
table f g all b lt = ground (arith, every_below-holds (λ k. f k == g k) 256 b all lt)

pub mask_c0 : (b : ℕ) → b < 256 → bit_and b 0xc0 ≡ b / 64 * 64
unfolding every_below
mask_c0 = table _ _ refl

pub mask_80 : (b : ℕ) → b < 256 → bit_and b 0x80 ≡ b / 128 * 128
unfolding every_below
mask_80 = table _ _ refl

pub mask_7f : (b : ℕ) → b < 256 → bit_and b 0x7f ≡ b % 128
unfolding every_below
mask_7f = table _ _ refl

pub mask_20 : (b : ℕ) → b < 256 → bit_and b 0x20 ≡ b / 32 % 2 * 32
unfolding every_below
mask_20 = table _ _ refl

pub mask_10 : (b : ℕ) → b < 256 → bit_and b 0x10 ≡ b / 16 % 2 * 16
unfolding every_below
mask_10 = table _ _ refl

pub mask_1f : (b : ℕ) → b < 256 → bit_and b 0x1f ≡ b % 32
unfolding every_below
mask_1f = table _ _ refl

pub mask_0f : (b : ℕ) → b < 256 → bit_and b 0x0f ≡ b % 16
unfolding every_below
mask_0f = table _ _ refl
