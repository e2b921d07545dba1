-- ===== src/Publish/Protobuf/Total.antt =====
-- publish/hep.pb.go: the loops of `Unmarshal` and `skipHep` end.
use heplify.Common.{
  ℕ, zero, suc, ◌+◌, ◌-◌, ◌*◌, ◌/◌, ◌%◌, ◌^◌, ◌≤◌, ◌<◌, ◌≡◌, ◌≢◌, false, [], ◌∷◌, length, drop,
  length-drop, get_elem?, some, Option-cases, ltb, leb, ◌==◌, ◌||◌, if◌then◌else◌, inl, inr, ok,
  err, stuck, ◌>>=◌, arith,
}
use heplify.Common.Bytes.{Bytes}
use heplify.Common.Gives.{
  Gives, returns, fails, panics, Gives-bind, Gives-if, Gives-weaker, Gives-ne-stuck,
}
use heplify.Publish.Protobuf.{Hep}
use heplify.Publish.Protobuf.Unmarshal.{
  invalid_length, is_negative, plus_int, past_end, byte_at, uint_from, uint64_at, text_at,
  is_number, is_text, skip_hep, skip_group, Read, read_number, read_text, skip_field, read_case,
  read_round, read_all, first_missing, required, unmarshal,
}

get_elem-inside : (d : Bytes) (i : ℕ) {b : ℕ} → get_elem? d i ≡ some b → i < length d
get_elem-inside [] i e = absurd cc
get_elem-inside (x ∷ xs) zero e = omega arith
get_elem-inside (x ∷ xs) (suc i) e = omega (arith, get_elem-inside xs i e)

byte_at-Gives : (d : Bytes) (i : ℕ) → Gives (λ b. i < length d) (byte_at d i)
byte_at-Gives d i = elim (Option-cases (get_elem? d i)) [
  | inl e ↦ rw (byte_at, e) panics
  | inr (b, e) ↦ rw (byte_at, e) (returns (get_elem-inside d i e))
]

-- An index behind the one given, and within the data.
abbrev Behind : Bytes → ℕ → ℕ → Type 0
Behind d i j = (i + 1 ≤ j) × (j ≤ length d)

uint_from-Gives :
    (values rounds w acc : ℕ) (d : Bytes) (i : ℕ)
    → Gives (λ x. Behind d i x.1) (uint_from values rounds w acc d i)
unfolding uint_from
uint_from-Gives values zero w acc d i = fails
uint_from-Gives values (suc rounds) w acc d i =
    Gives-if (past_end d i) (λ e. fails)
      (λ e. Gives-bind (byte_at-Gives d i) (λ b lt.
        Gives-if (ltb b 128) (λ e. returns (omega arith))
          (λ e.
            Gives-weaker
              (uint_from-Gives values rounds (w * 128) ((acc + b % 128 * w) % values) d (i + 1))
              (λ x p. omega arith))))

uint64_at-Gives : (d : Bytes) (i : ℕ) → Gives (λ x. Behind d i x.1) (uint64_at d i)
uint64_at-Gives d i = uint_from-Gives (2 ^ 64) 10 1 0 d i

-- Data as long as a slice may be.
abbrev IsShort : Bytes → Type 0
IsShort d = length d < 2 ^ 62

abbrev Skipped : Bytes → ℕ → Type 0
Skipped d n = (1 ≤ n) × (n ≤ length d + 2 ^ 63)

not_negative : (i : ℕ) → is_negative i ≡ false → i < 2 ^ 63
not_negative i e = ground arith

text-Gives :
    (d : Bytes) (i : ℕ)
    → IsShort d
    → Gives (Skipped d) (
        uint64_at d i >>= λ (n, i).
        (if is_negative n then err invalid_length else ok (plus_int i n)))
text-Gives d i short = Gives-bind (uint64_at-Gives d i) (λ x p.
    Gives-if (is_negative x.0) (λ e. fails) (λ e. returns (omega (arith, not_negative x.0 e))))

mutual
  unfolding skip_hep skip_group

  skip_hep-Gives :
      (fuel : ℕ) (d : Bytes)
      → IsShort d
      → 2 * length d + 1 ≤ fuel
      → Gives (Skipped d) (skip_hep fuel d)
  skip_hep-Gives zero d short enough = absurd (omega arith)
  skip_hep-Gives (suc fuel) [] short enough = panics
  skip_hep-Gives (suc fuel) (b ∷ bs) short enough =
      let d = b ∷ bs in
      Gives-bind (uint64_at-Gives d 0) (λ x p.
        Gives-if (x.0 % 8 == 0)
          (λ e. Gives-bind (uint64_at-Gives d x.1) (λ y q. returns (omega arith)))
          (λ e.
            Gives-if (x.0 % 8 == 1) (λ e. returns (omega arith))
              (λ e.
                Gives-if (x.0 % 8 == 2) (λ e. text-Gives d x.1 short)
                  (λ e.
                    Gives-if (x.0 % 8 == 3)
                      (λ e.
                        Gives-weaker (skip_group-Gives fuel d x.1 short (omega arith))
                          (λ v q. omega arith))
                      (λ e.
                        Gives-if (x.0 % 8 == 4) (λ e. returns (omega arith))
                          (λ e.
                            Gives-if (x.0 % 8 == 5) (λ e. returns (omega arith)) (λ e. fails)))))))

  skip_group-Gives :
      (fuel : ℕ) (d : Bytes) (s : ℕ)
      → IsShort d
      → 2 * (length d - s) + 2 ≤ fuel
      → Gives (λ i. (1 ≤ i) × (i ≤ length d)) (skip_group fuel d s)
  skip_group-Gives zero d s short enough = absurd (omega arith)
  skip_group-Gives (suc fuel) d s short enough = Gives-bind (uint64_at-Gives d s) (λ x p.
      Gives-if (x.0 % 8 == 4) (λ e. returns (omega arith))
        (λ e.
          let cut = length-drop s d in
          Gives-bind (skip_hep-Gives fuel (drop s d) (omega (arith, cut)) (omega (arith, cut)))
            (λ n q.
              let on : plus_int s n ≡ s + n = omega (arith, cut) in
              skip_group-Gives fuel d (plus_int s n) short (omega (arith, on)))))

-- A round that goes on started within the data, and goes on behind.
abbrev Further : Bytes → ℕ → Read × ℕ → Type 0
Further d i x = (i < length d) × (i + 1 ≤ x.1)

text_at-Gives : (d : Bytes) (i : ℕ) → IsShort d → Gives (λ x. i + 1 ≤ x.1) (text_at d i)
text_at-Gives d i short = Gives-bind (uint64_at-Gives d i) (λ x p.
    Gives-if (is_negative x.0) (λ e. fails)
      (λ e.
        let small = not_negative x.0 e in
        Gives-if (is_negative (plus_int x.1 x.0)) (λ e. panics)
          (λ e.
            Gives-if (ltb (length d) (plus_int x.1 x.0)) (λ e. fails)
              (λ e. returns (omega arith)))))

skip_field-Gives :
    (r : Read) (d : Bytes) (i : ℕ)
    → IsShort d
    → i < length d
    → Gives (Further d i) (skip_field r d i)
unfolding skip_field
skip_field-Gives r d i short lt =
    let cut = length-drop i d in
    Gives-bind
      (skip_hep-Gives (2 * length d + 2) (drop i d) (omega (arith, cut)) (omega (arith, cut)))
      (λ n p.
        Gives-if (is_negative n) (λ e. fails)
          (λ e.
            let small = not_negative n e in
            Gives-if (if is_negative (plus_int i n) then false else ltb (length d) (plus_int i n))
              (λ e. fails) (λ e. returns (omega arith))))

read_round-Gives :
    (r : Read) (d : Bytes) (i : ℕ) → IsShort d → Gives (Further d i) (read_round r d i)
unfolding read_round read_case read_number read_text
read_round-Gives r d i short = Gives-bind (uint64_at-Gives d i) (λ x p.
    let n = x.0 / 8 % 2 ^ 32 in
    Gives-if (x.0 % 8 == 4) (λ e. fails)
      (λ e.
        Gives-if (n == 0 || leb (2 ^ 31) n) (λ e. fails)
          (λ e.
            Gives-if (is_number n)
              (λ e.
                Gives-if (x.0 % 8 == 0)
                  (λ e.
                    Gives-bind (uint_from-Gives (2 ^ 32) 10 1 0 d x.1)
                      (λ y q. returns (omega arith)))
                  (λ e. fails))
              (λ e.
                Gives-if (is_text n)
                  (λ e.
                    Gives-if (x.0 % 8 == 2)
                      (λ e. Gives-bind (text_at-Gives d x.1 short) (λ y q. returns (omega arith)))
                      (λ e. fails))
                  (λ e. skip_field-Gives r d i short (omega arith))))))

read_all-Gives :
    (fuel : ℕ) (d : Bytes) (i : ℕ) (r : Read)
    → IsShort d
    → length d - i < fuel
    → Gives (λ x. Unit) (read_all fuel d i r)
unfolding read_all
read_all-Gives zero d i r short enough = absurd (omega arith)
read_all-Gives (suc fuel) d i r short enough =
    Gives-if (past_end d i) (λ e. returns tt)
      (λ e.
        Gives-bind (read_round-Gives r d i short)
          (λ x p. read_all-Gives fuel d x.1 x.0 short (omega arith)))

required-Gives : (d : Bytes) (r : Read) (i : ℕ) → Gives (λ m. Unit) (required d r i)
unfolding required
required-Gives d r i = elim (Option-cases (first_missing 14 1 r.seen)) [
  | inl e ↦
      rw (required, e)
        (Gives-if (is_negative i) (λ e. returns tt)
          (λ e. Gives-if (ltb (length d) i) (λ e. fails) (λ e. returns tt)))
  | inr (n, e) ↦ rw (required, e) fails
]

-- `Unmarshal` ends on all data of less than 2^62 bytes, whatever it holds and whatever the message held:
-- its loop, and those of `skipHep` over groups within groups, never run out of fuel.
pub unmarshal-ne-stuck : (d : Bytes) (old : Hep) → length d < 2 ^ 62 → unmarshal d old ≢ stuck
unfolding unmarshal
unmarshal-ne-stuck d old short = Gives-ne-stuck (
    Gives-bind {P = λ m. Unit}
      (read_all-Gives (length d + 1) d 0 (record { message = old; seen = [] }) short (omega arith))
      (λ x p. required-Gives d x.0 x.1))
