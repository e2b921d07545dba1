-- ===== src/Common/Bytes.antt =====
-- Byte slices as lists of numbers below 256, and Go's encoding/binary on them.
use Prim.Native.Nat.{ℕ, ◌+◌, ◌*◌, ◌/◌, ◌%◌, ◌<◌}
use mathlib.Core.Path.{◌≡◌, refl}
use mathlib.Core.Logic.{◌↔◌}
use mathlib.Core.Bool.{Bool, true, false, ◌&&◌}
use heplify.Common.Tests.{◌==◌}
use mathlib.Core.List.{List, [], ◌∷◌, ◌++◌}
use mathlib.Core.Option.{Option, none, some}
use native.Mathlib.Omega.{arith}

abbrev pub Bytes : Type 0
Bytes = List ℕ

abbrev pub IsByte : ℕ → Type 0
IsByte b = b < 256

abbrev pub IsU16 : ℕ → Type 0
IsU16 v = v < 65536

abbrev pub IsU32 : ℕ → Type 0
IsU32 v = v < 4294967296

-- `binary.BigEndian.PutUint16` and `PutUint32`: the bytes written.
abbrev pub put_uint16 : ℕ → Bytes
put_uint16 v = v / 256 % 256 ∷ v % 256 ∷ []

abbrev pub put_uint32 : ℕ → Bytes
put_uint32 v = v / 16777216 % 256 ∷ v / 65536 % 256 ∷ v / 256 % 256 ∷ v % 256 ∷ []

-- `binary.BigEndian.Uint16` and `Uint32`; `none` is the index panic on a slice that is too short.
unfoldable pub uint16 : Bytes → Option ℕ
uint16 (a ∷ b ∷ _) = some (a * 256 + b)
uint16 _ = none

unfoldable pub uint32 : Bytes → Option ℕ
uint32 (a ∷ b ∷ c ∷ d ∷ _) = some (a * 16777216 + b * 65536 + c * 256 + d)
uint32 _ = none

pub uint16-put_uint16 : (v : ℕ) (rest : Bytes) → IsU16 v → uint16 (put_uint16 v ++ rest) ≡ some v
unfolding uint16
uint16-put_uint16 v rest h = ground arith

pub uint32-put_uint32 : (v : ℕ) (rest : Bytes) → IsU32 v → uint32 (put_uint32 v ++ rest) ≡ some v
unfolding uint32
uint32-put_uint32 v rest h = ground arith

-- Comparison of byte strings.
unfoldable pub bytes_eq : Bytes → Bytes → Bool
bytes_eq [] [] = true
bytes_eq (a ∷ p) (b ∷ q) = a == b && bytes_eq p q
bytes_eq p q = false

pub bytes_eq_iff : (p q : Bytes) → (bytes_eq p q ≡ true) ↔ (p ≡ q)
unfolding bytes_eq
bytes_eq_iff [] [] = ((λ e. refl), (λ e. refl))
bytes_eq_iff [] (b ∷ q) = ((λ e. cc), (λ e. cc))
bytes_eq_iff (a ∷ p) [] = ((λ e. cc), (λ e. cc))
bytes_eq_iff (a ∷ p) (b ∷ q) =
    let same_rest = bytes_eq_iff p q in
    ((λ e. ground (arith, same_rest)), (λ e. ground (arith, same_rest)))
