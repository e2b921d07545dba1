-- ===== src/Decoder/Correlator/Ports.antt =====
-- decoder/correlator.go: the RTCP port that `cacheSDPIPPort` makes from an audio port.
use heplify.Common.{
  ℕ, zero, suc, ◌+◌, ◌/◌, ◌%◌, ◌≤◌, ◌≡◌, refl, [], ◌∷◌, ◌++◌, ltb, ap, ◌∙◌, sym, arith, Bool-cases,
  inl, inr, ltb→lt, lt→ltb, not_ltb→le, le→ltb,
}
use heplify.Common.Bytes.{Bytes}
use heplify.Decoder.Ng.Numbers.{digits, decimal, decimal-All}
use heplify.Decoder.Correlator.Sdp.{increment_last}

-- Only the last byte changes.
increment_last-digits :
    (f m x : ℕ) (rest : Bytes)
    → increment_last (digits f m (x ∷ rest)) ≡ digits f m (increment_last (x ∷ rest))
unfolding increment_last digits
increment_last-digits zero m x rest = refl
increment_last-digits (suc f) m x rest = elim (Bool-cases (ltb m 10)) [
  | inl small ↦ rw small
  | inr big ↦ rw big (increment_last-digits f (m / 10) (m % 10 + 48) (x ∷ rest))
]

increment_last-append :
    (front : Bytes) (d : ℕ) (ds : Bytes)
    → increment_last (front ++ d ∷ ds) ≡ front ++ increment_last (d ∷ ds)
unfolding increment_last
increment_last-append [] d ds = refl
increment_last-append (x ∷ []) d ds = refl
increment_last-append (x ∷ y ∷ front) d ds = ap (◌∷◌ x) (increment_last-append (y ∷ front) d ds)

-- More fuel than the number changes nothing.
digits_fuel : (f m : ℕ) (rest : Bytes) → m ≤ f → digits (suc f) m rest ≡ digits f m rest
unfolding digits
digits_fuel zero m rest h = let none_left : m ≡ 0 = omega arith in rw none_left
digits_fuel (suc f) m rest h = elim (Bool-cases (ltb m 10)) [
  | inl small ↦ rw small
  | inr big ↦
      rw big (digits_fuel f (m / 10) ((m % 10 + 48) ∷ rest) (omega (arith, not_ltb→le m 10 big)))
]

increment_last-decimal : (n : ℕ) → n % 2 ≡ 0 → increment_last (decimal n) ≡ decimal (n + 1)
unfolding increment_last digits
increment_last-decimal zero h = refl
increment_last-decimal (suc m) h =
    let step : suc m + 1 ≡ suc (suc m) = omega arith in
    elim (Bool-cases (ltb (suc m) 10)) [
      | inl small ↦
          let lt = ltb→lt (suc m) 10 small in
          let digit : (suc m + 48 + 1) % 256 ≡ suc (suc m) + 48 = omega arith in
          rw (step, small, lt→ltb (suc (suc m)) 10 (omega arith), digit)
      | inr big ↦
          let ge = not_ltb→le (suc m) 10 big in
          let digit : (suc m % 10 + 48 + 1) % 256 ≡ suc (suc m) % 10 + 48 = omega arith in
          let tens : suc (suc m) / 10 ≡ suc m / 10 = omega arith in
          rw (step, big, le→ltb (suc (suc m)) 10 (omega arith), tens)
            (increment_last-digits m (suc m / 10) (suc m % 10 + 48) []
              ∙ ap (λ d. digits m (suc m / 10) (d ∷ [])) digit
              ∙ sym (digits_fuel m (suc m / 10) ((suc (suc m) % 10 + 48) ∷ []) (omega arith)))
    ]

-- For an even audio port the buffer of address and port becomes the address and the next port.
increment_last-append_decimal :
    (ip : Bytes) (port : ℕ)
    → port % 2 ≡ 0
    → increment_last (ip ++ decimal port) ≡ ip ++ decimal (port + 1)
increment_last-append_decimal ip port even =
    let (d, ds, e, all) = decimal-All port in
    let front = increment_last-append ip d ds in
    let last : increment_last (d ∷ ds) ≡ decimal (port + 1) =
      ap increment_last (sym e) ∙ increment_last-decimal port even in
    rw e (front ∙ ap (◌++◌ ip) last)
