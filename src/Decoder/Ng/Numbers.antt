-- ===== src/Decoder/Ng/Numbers.antt =====
-- decoder/util.go: the numbers of an NG message, as strconv.ParseInt reads them in base 10 and 64
-- bits, and the decimal digits of a number.
use heplify.Common.{
  ℕ, zero, suc, ◌+◌, ◌-◌, ◌*◌, ◌/◌, ◌%◌, ◌<◌, ◌≤◌, ◌≡◌, refl, ◌||◌, [], ◌∷◌, Option, none, some,
  ltb, ◌==◌, if◌then◌else◌, All, arith, Bool-cases, inl, inr, ltb→lt, lt→ltb, le→ltb, not_ltb→le,
  ◌∙◌, ap, sym, false, ==_of_ne,
}
use heplify.Common.Bytes.{Bytes}

pub data ℤ : Type 0 where
  pos : ℕ → ℤ
  negsuc : ℕ → ℤ

-- The digits read after the value `v`.
unfoldable pub parse_digits : ℕ → Bytes → Option ℕ
parse_digits v [] = some v
parse_digits v (d ∷ rest) =
    let further = parse_digits (v * 10 + (d - 48)) rest in
    if ltb d 48 || ltb 57 d then none else further

abbrev pub limit : ℕ
limit = 9223372036854775808

unfoldable pub parse_magnitude : Bytes → Option ℕ
parse_magnitude [] = none
parse_magnitude (d ∷ rest) = parse_digits 0 (d ∷ rest)

abbrev pub signed_pos : Option ℕ → Option ℤ
signed_pos none = none
signed_pos (some n) = if ltb n limit then some (pos n) else none

abbrev pub signed_neg : Option ℕ → Option ℤ
signed_neg none = none
signed_neg (some zero) = some (pos 0)
signed_neg (some (suc n)) = if ltb n limit then some (negsuc n) else none

-- `strconv.ParseInt(s, 10, 64)`; `none` is an error, of the syntax or the range.
unfoldable pub parse_int : Bytes → Option ℤ
parse_int [] = none
parse_int (c ∷ rest) =
    if c == 43
    then signed_pos (parse_magnitude rest)
    else if c == 45
    then signed_neg (parse_magnitude rest)
    else signed_pos (parse_magnitude (c ∷ rest))

-- The decimal digits of a number, in front of what is given.
unfoldable pub digits : ℕ → ℕ → Bytes → Bytes
digits zero n rest = (n % 10 + 48) ∷ rest
digits (suc f) n rest =
    let more = digits f (n / 10) ((n % 10 + 48) ∷ rest) in
    if ltb n 10 then (n + 48) ∷ rest else more

abbrev pub IsDigit : ℕ → Type 0
IsDigit d = (48 ≤ d) × (d ≤ 57)

-- The digits of a number: at least one, and digits all.
digits-All :
    (f n : ℕ) (rest : Bytes)
    → All IsDigit rest
    → (d : ℕ) × (ds : Bytes) × (digits f n rest ≡ d ∷ ds) × All IsDigit (d ∷ ds)
unfolding digits
digits-All zero n rest h = (n % 10 + 48, rest, refl, ((omega arith, omega arith), h))
digits-All (suc f) n rest h = elim (Bool-cases (ltb n 10)) [
  | inl small ↦ (n + 48, rest, rw small, ((omega arith, omega (arith, ltb→lt n 10 small)), h))
  | inr big ↦
      let (d, ds, e, all) =
        digits-All f (n / 10) ((n % 10 + 48) ∷ rest) ((omega arith, omega arith), h) in
      (d, ds, rw big e, all)
]

parse_digits-digits :
    (f n : ℕ) (rest : Bytes) → n ≤ f → parse_digits 0 (digits f n rest) ≡ parse_digits n rest
unfolding parse_digits digits
parse_digits-digits zero n rest h = let e : n ≡ 0 = omega arith in rw e
parse_digits-digits (suc f) n rest h = elim (Bool-cases (ltb n 10)) [
  | inl small ↦
      let lt = ltb→lt n 10 small in
      let value : 0 * 10 + (n + 48 - 48) ≡ n = omega arith in
      rw (small, le→ltb (n + 48) 48 (omega arith), le→ltb 57 (n + 48) (omega arith), value)
  | inr big ↦
      let ge = not_ltb→le n 10 big in
      let value : n / 10 * 10 + (n % 10 + 48 - 48) ≡ n = omega arith in
      rw big (
        parse_digits-digits f (n / 10) ((n % 10 + 48) ∷ rest) (omega arith)
        ∙ rw (le→ltb (n % 10 + 48) 48 (omega arith), le→ltb 57 (n % 10 + 48) (omega arith), value))
]

-- The text of a number; the number is fuel enough for its digits.
abbrev pub decimal : ℕ → Bytes
decimal n = digits n n []

pub decimal-All : (n : ℕ) → (d : ℕ) × (ds : Bytes) × (decimal n ≡ d ∷ ds) × All IsDigit (d ∷ ds)
decimal-All n = digits-All n n [] tt

abbrev pub int_text : ℤ → Bytes
int_text (pos n) = decimal n
int_text (negsuc n) = 45 ∷ decimal (suc n)

abbrev pub IsInt64 : ℤ → Type 0
IsInt64 (pos n) = n < limit
IsInt64 (negsuc n) = n < limit

parse_magnitude-decimal : (n : ℕ) → parse_magnitude (decimal n) ≡ some n
unfolding parse_magnitude parse_digits
parse_magnitude-decimal n =
    let (d, ds, e, all) = decimal-All n in
    let whole : parse_digits 0 (d ∷ ds) ≡ some n =
      ap (parse_digits 0) (sym e) ∙ parse_digits-digits n n [] (omega arith) in
    rw e whole

-- ParseInt gives back the number whose text it reads.
pub parse_int-int_text : (z : ℤ) → IsInt64 z → parse_int (int_text z) ≡ some z
unfolding parse_int
parse_int-int_text (pos n) h =
    let (d, ds, e, (hd, hds)) = decimal-All n in
    let plus : (d == 43) ≡ false = ==_of_ne d 43 (λ p. omega arith) in
    let minus : (d == 45) ≡ false = ==_of_ne d 45 (λ p. omega arith) in
    let whole : parse_magnitude (d ∷ ds) ≡ some n =
      ap parse_magnitude (sym e) ∙ parse_magnitude-decimal n in
    rw e (rw (plus, minus, whole, lt→ltb n limit h))
parse_int-int_text (negsuc n) h = rw (parse_magnitude-decimal (suc n), lt→ltb n limit h)
