-- ===== src/Publish/Protobuf/Varint.antt =====
-- publish/hep.pb.go: the numbers that `encodeVarintHep` writes and `sovHep` measures.
use heplify.Common.{
  ℕ, zero, suc, ◌+◌, ◌/◌, ◌%◌, ◌≤◌, ◌<◌, ◌≡◌, refl, ap, ◌∙◌, true, false, inl, inr, ◌⊎◌, [], ◌∷◌,
  ◌++◌, append_assoc, length-append, length, leb, lt→ltb, ==_of_ne, ==_of_eq, if◌then◌else◌,
  Bool-cases, ok, arith,
}
use heplify.Common.Bytes.{Bytes}
use heplify.Publish.Protobuf.{sov_from, put, encode_varint}

-- A number by seven bits, the lowest first, with a mark on all bytes but the last.
unfoldable pub varint : ℕ → ℕ → Bytes
varint zero v = []
varint (suc fuel) v =
    let more = (v % 128 + 128) ∷ varint fuel (v / 128) in if leb 128 v then more else v ∷ []

-- So many bytes suffice.
unfoldable pub Within : ℕ → ℕ → Type 0
Within zero v = ⊥
Within (suc fuel) v = (v < 128) ⊎ Within fuel (v / 128)

pub Within-uint32 : (v : ℕ) → v < 4294967296 → Within 10 v
unfolding Within
Within-uint32 v small = inr (inr (inr (inr (inl (omega arith)))))

pub put-ok : (room b : ℕ) (out : Bytes) → length out < room → put room b out ≡ ok (out ++ b ∷ [])
unfolding put
put-ok room b out lt = rw (lt→ltb (length out) room lt) refl

pub Within-zero {ℓ} : (v : ℕ) → Within 0 v → (A : Type ℓ) → A
unfolding Within
Within-zero v w A = elim w [ ]

small_leb : (v : ℕ) → v < 128 → leb 128 v ≡ false
small_leb v lt = ground arith

pub large_leb : (v : ℕ) → leb 128 v ≡ true → 128 ≤ v
large_leb v e = ground arith

pub not_leb : (v : ℕ) → leb 128 v ≡ false → v < 128
not_leb v e = ground arith

pub varint-last : (fuel v : ℕ) → leb 128 v ≡ false → varint (suc fuel) v ≡ v ∷ []
unfolding varint
varint-last fuel v e = rw e refl

pub varint-more :
    (fuel v : ℕ) → leb 128 v ≡ true → varint (suc fuel) v ≡ (v % 128 + 128) ∷ varint fuel (v / 128)
unfolding varint
varint-more fuel v e = rw e refl

-- A number that is not the last byte needs more of them.
pub Within-more : (fuel v : ℕ) → Within (suc fuel) v → leb 128 v ≡ true → Within fuel (v / 128)
unfolding Within
Within-more fuel v (inl lt) e = absurd (omega (arith, large_leb v e))
Within-more fuel v (inr w) e = w

pub encode_varint-ok :
    (fuel room v : ℕ) (out : Bytes)
    → Within fuel v
    → length out + length (varint fuel v) ≤ room
    → encode_varint fuel room v out ≡ ok (out ++ varint fuel v)
unfolding encode_varint
encode_varint-ok zero room v out w fits = Within-zero v w _
encode_varint-ok (suc fuel) room v out w fits = elim (Bool-cases (leb 128 v)) [
  | inr e ↦
      let last = varint-last fuel v e in
      let same : v % 256 ≡ v = omega (arith, not_leb v e) in
      rw (last, e, same) (put-ok room v out (omega (arith, ap length last)))
  | inl e ↦
      let more = varint-more fuel v e in
      let next = out ++ (v % 128 + 128) ∷ [] in
      let grown = length-append out ((v % 128 + 128) ∷ []) in
      rw (more, e, put-ok room (v % 128 + 128) out (omega (arith, ap length more)))
        (encode_varint-ok fuel room (v / 128) next (Within-more fuel v w e)
            (omega (arith, grown, ap length more))
          ∙ ap ok (append_assoc out ((v % 128 + 128) ∷ []) (varint fuel (v / 128))))
]

pub sov-varint : (fuel v : ℕ) → Within fuel v → sov_from fuel v ≡ length (varint fuel v)
unfolding sov_from
sov-varint zero v w = Within-zero v w _
sov-varint (suc fuel) v w = elim (Bool-cases (leb 128 v)) [
  | inr e ↦ rw (varint-last fuel v e, ==_of_eq (v / 128) 0 (omega (arith, not_leb v e))) refl
  | inl e ↦
      rw (varint-more fuel v e, ==_of_ne (v / 128) 0 (λ h. omega (arith, large_leb v e)))
        (ap suc (sov-varint fuel (v / 128) (Within-more fuel v w e)))
]

pub length-varint : (fuel v : ℕ) → length (varint fuel v) ≤ fuel
unfolding varint
length-varint zero v = omega arith
length-varint (suc fuel) v = elim (Bool-cases (leb 128 v)) [
  | inr e ↦ rw e (omega arith)
  | inl e ↦ rw e (omega (arith, length-varint fuel (v / 128)))
]
