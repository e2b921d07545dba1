-- ===== src/Publish/Protobuf/Slices.antt =====
-- publish/hep.pb.go: numbers and strings that stand at an index, as `Unmarshal` reads them.
use heplify.Common.{
  ℕ, zero, suc, ◌+◌, ◌-◌, ◌*◌, ◌/◌, ◌%◌, ◌^◌, ◌≤◌, ◌<◌, ◌≡◌, refl, sym, ap, ◌∙◌, false, inl, inr,
  [], ◌∷◌, ◌++◌, append_assoc, length-append, take-append, drop-append, drop-drop, length-drop,
  some, length, drop, get_elem?, ltb, leb, lt→ltb, le→ltb, if◌then◌else◌, Bool-cases, ok, arith,
}
use native.Mathlib.Nat.{mod-eq_of_lt}
use heplify.Common.Bytes.{Bytes}
use heplify.Publish.Protobuf.Varint.{
  varint, Within, Within-zero, Within-uint32, varint-last, varint-more, Within-more, not_leb,
}
use heplify.Publish.Protobuf.Unmarshal.{
  is_negative, plus_int, past_end, byte_at, uint_from, uint64_at, uint32_at, text_to, text_at,
}

drop-get :
    (i : ℕ) (d : Bytes) {b : ℕ} {rest : Bytes}
    → drop i d ≡ b ∷ rest
    → (get_elem? d i ≡ some b) × (i < length d)
drop-get zero [] e = absurd cc
drop-get zero (x ∷ xs) e = (cc, omega arith)
drop-get (suc i) [] e = absurd cc
drop-get (suc i) (x ∷ xs) e = let (got, lt) = drop-get i xs e in (got, omega arith)

pub drop-past :
    (i : ℕ) (d x : Bytes) {rest : Bytes} → drop i d ≡ x ++ rest → drop (i + length x) d ≡ rest
drop-past i d x {rest} e =
    sym (drop-drop (length x) i d) ∙ ap (drop (length x)) e ∙ drop-append (length x) x rest refl

pub past_end-inside : (d : Bytes) (i : ℕ) → i < length d → length d < 2 ^ 63 → past_end d i ≡ false
past_end-inside d i lt small = ground arith

byte_at-inside : (d : Bytes) (i b : ℕ) → get_elem? d i ≡ some b → byte_at d i ≡ ok b
byte_at-inside d i b e = rw (byte_at, e) refl

uint_from-step :
    (values rounds w acc i : ℕ) (d : Bytes) {b : ℕ} {rest : Bytes}
    → drop i d ≡ b ∷ rest
    → length d < 2 ^ 63
    → acc + b % 128 * w < values
    → uint_from values (suc rounds) w acc d i ≡ (
        if ltb b 128
        then ok (acc + b % 128 * w, i + 1)
        else uint_from values rounds (w * 128) (acc + b % 128 * w) d (i + 1))
unfolding uint_from
uint_from-step values rounds w acc i d {b} e small fits =
    let (got, lt) = drop-get i d e in
    rw (past_end-inside d i lt small, byte_at-inside d i b got, mod-eq_of_lt fits) refl

-- One step of a number's weight.
weigh : (v w acc : ℕ) → (acc + v % 128 * w) + v / 128 * (w * 128) ≡ acc + v * w
weigh v w acc =
    let parts : v ≡ v / 128 * 128 + v % 128 = omega arith in grind (arith, ap (λ x. x * w) parts)

-- A number that stands at an index is read, with the index behind it.
uint_from-varint :
    (values rounds w acc v i : ℕ) (d rest : Bytes)
    → Within rounds v
    → drop i d ≡ varint rounds v ++ rest
    → length d < 2 ^ 63
    → acc + v * w < values
    → uint_from values rounds w acc d i ≡ ok (acc + v * w, i + length (varint rounds v))
uint_from-varint values zero w acc v i d rest within at small fits = Within-zero v within _
uint_from-varint values (suc rounds) w acc v i d rest within at small fits =
    elim (Bool-cases (leb 128 v)) [
      | inr e ↦
          let one = varint-last rounds v e in
          let same : v % 128 ≡ v = omega (arith, not_leb v e) in
          let only : drop i d ≡ v ∷ rest = at ∙ ap (λ x. x ++ rest) one in
          let fits' : acc + v % 128 * w < values = rw same fits in
          rw
            (
              one,
              uint_from-step values rounds w acc i d only small fits',
              lt→ltb v 128 (not_leb v e),
              same,
            )
            refl
      | inl e ↦
          let more = varint-more rounds v e in
          let b = v % 128 + 128 in
          let first : drop i d ≡ b ∷ (varint rounds (v / 128) ++ rest) =
            at ∙ ap (λ x. x ++ rest) more in
          let low : b % 128 ≡ v % 128 = omega arith in
          let whole = weigh v w acc in
          let bound : acc + v % 128 * w < values = omega arith in
          let fits' : acc + b % 128 * w < values = rw low bound in
          let ih =
            uint_from-varint values rounds (w * 128) (acc + v % 128 * w) (v / 128) (i + 1) d rest
              (Within-more rounds v within e) (drop-past i d (b ∷ []) first) small (omega arith) in
          rw
            (
              uint_from-step values rounds w acc i d first small fits',
              le→ltb b 128 (omega arith),
              low,
              ih,
              whole,
              more,
            )
            (ap (λ n. ok (acc + v * w, n)) {y = i + suc (length (varint rounds (v / 128)))}
              (omega arith))
    ]

varint-nonempty : (fuel v : ℕ) → 0 < length (varint (suc fuel) v)
varint-nonempty fuel v = elim (Bool-cases (leb 128 v)) [
  | inr e ↦ rw (varint-last fuel v e) (omega arith)
  | inl e ↦ rw (varint-more fuel v e) (omega arith)
]

-- What stands at an index stays within the data.
pub inside :
    (d x : Bytes) (i : ℕ) (rest : Bytes)
    → drop i d ≡ x ++ rest
    → 0 < length x
    → i + length x ≤ length d
inside d x i rest e full = omega (arith, length-drop i d, ap length e, length-append x rest)

module _ (d : Bytes) (i : ℕ) (rest : Bytes) (small : length d < 2 ^ 63) where
  pub uint32_at-varint :
      (v : ℕ)
      → v < 4294967296
      → drop i d ≡ varint 10 v ++ rest
      → uint32_at d i ≡ ok (v, i + length (varint 10 v))
  uint32_at-varint v fit at =
      uint_from-varint (2 ^ 32) 10 1 0 v i d rest (Within-uint32 v fit) at small (omega arith)
      ∙ ap (λ n. ok (n, i + length (varint 10 v))) {x = 0 + v * 1} {y = v} (omega arith)

  pub uint64_at-varint :
      (v : ℕ)
      → v < 4294967296
      → drop i d ≡ varint 10 v ++ rest
      → uint64_at d i ≡ ok (v, i + length (varint 10 v))
  uint64_at-varint v fit at =
      uint_from-varint (2 ^ 64) 10 1 0 v i d rest (Within-uint32 v fit) at small (omega arith)
      ∙ ap (λ n. ok (n, i + length (varint 10 v))) {x = 0 + v * 1} {y = v} (omega arith)

text_to-inside :
    (d s : Bytes) (i : ℕ) (rest : Bytes)
    → drop i d ≡ s ++ rest
    → i + length s ≤ length d
    → length d < 2 ^ 63
    → text_to d i (i + length s) ≡ ok (s, i + length s)
text_to-inside d s i rest at within small =
    let shown : is_negative (i + length s) ≡ false = ground arith in
    let kept : i + length s - i ≡ length s = omega arith in
    rw
      (
        text_to,
        shown,
        le→ltb (length d) (i + length s) within,
        kept,
        at,
        take-append (length s) s rest refl,
      )
      refl

pub text_at-bytes :
    (d s : Bytes) (i : ℕ) (rest : Bytes)
    → length d < 2 ^ 63
    → length s < 4294967296
    → drop i d ≡ varint 10 (length s) ++ (s ++ rest)
    → text_at d i ≡ ok (s, i + length (varint 10 (length s) ++ s))
text_at-bytes d s i rest small fit at =
    let v = varint 10 (length s) in
    let at' : drop i d ≡ (v ++ s) ++ rest = at ∙ sym (append_assoc v s rest) in
    let sized = length-append v s in
    let within =
      inside d (v ++ s) i rest at' (omega (arith, sized, varint-nonempty 9 (length s))) in
    let shown : is_negative (length s) ≡ false = ground arith in
    let past : plus_int (i + length v) (length s) ≡ i + length v + length s = omega arith in
    let cut = text_to-inside d s (i + length v) rest (drop-past i d v at) (omega arith) small in
    rw (text_at, uint64_at-varint d i (s ++ rest) small (length s) fit at, shown, past, cut)
      (ap (λ n. ok (s, n)) {x = i + length v + length s} (omega arith))
