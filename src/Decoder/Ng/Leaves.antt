-- ===== src/Decoder/Ng/Leaves.antt =====
-- decoder/util.go: `parseNG` on the bytes of an integer and of a string.
use heplify.Common.{
  ℕ, zero, suc, ◌+◌, ◌<◌, ◌≤◌, ◌≡◌, ◌≢◌, refl, [], ◌∷◌, ◌++◌, some, length, drop, length-append,
  take-append, drop-append, append_assoc, All, ok, arith, ap, ◌∙◌, sym, ==_of_ne, ==_refl, le→ltb,
  drop-drop,
}
use heplify.Common.Bytes.{Bytes}
use heplify.Decoder.Ng.Numbers.{
  ℤ, pos, negsuc, parse_int, IsDigit, decimal-All, int_text, IsInt64, limit, parse_int-int_text,
}
use heplify.Decoder.Ng.{
  Value, integer, text, Parse, read_until, parse_integer, slice_text, parse_string, parse_ng,
}
use heplify.Decoder.Ng.Encode.{write_text, write_value}

-- The call returns the value, and what it took leaves `rest`.
pub record Reads (call : Parse (Value × ℕ)) (packet : Bytes) (v : Value) (rest : Bytes)
    : Type 0 where
  pub taken : ℕ
  pub returns : call ≡ ok (v, taken)
  pub leaves : drop taken packet ≡ rest
  pub some_taken : 2 ≤ taken
  pub fits : taken ≤ length packet

pub read_until-append :
    (s : Bytes) (symbol : ℕ) (rest : Bytes)
    → All (λ b. b ≢ symbol) s
    → read_until (s ++ symbol ∷ rest) symbol ≡ some (s, length s)
unfolding read_until
read_until-append [] symbol rest h = rw (==_refl symbol)
read_until-append (b ∷ s) symbol rest (ne, h) =
    rw (==_of_ne b symbol ne, read_until-append s symbol rest h)

pub digits_end : (ds : Bytes) (symbol : ℕ) → All IsDigit ds → 57 < symbol → All (λ b. b ≢ symbol) ds
digits_end [] symbol h lt = tt
digits_end (d ∷ ds) symbol ((lo, hi), h) lt = ((λ e. omega arith), digits_end ds symbol h lt)

int_text_end : (z : ℤ) (symbol : ℕ) → 57 < symbol → All (λ b. b ≢ symbol) (int_text z)
int_text_end (pos n) symbol lt =
    let (d, ds, e, h) = decimal-All n in rw e (digits_end (d ∷ ds) symbol h lt)
int_text_end (negsuc n) symbol lt =
    let (d, ds, e, h) = decimal-All (suc n) in
    ((λ p. omega arith), rw e (digits_end (d ∷ ds) symbol h lt))

parse_integer-Reads :
    (ds : Bytes) (z : ℤ) (rest : Bytes)
    → All (λ b. b ≢ 101) ds
    → parse_int ds ≡ some z
    → Reads (parse_integer (ds ++ 101 ∷ rest)) (105 ∷ (ds ++ 101 ∷ rest)) (integer z) rest
unfolding parse_integer
parse_integer-Reads ds z rest plain number = record {
  taken = length ds + 2;
  returns = rw (parse_integer, read_until-append ds 101 rest plain, number);
  leaves =
      ap (λ p. drop (length ds + 2) (105 ∷ p)) (sym (append_assoc ds (101 ∷ []) rest))
      ∙ drop-append (length ds + 2) (105 ∷ (ds ++ 101 ∷ [])) rest
          (omega (arith, length-append ds (101 ∷ [])));
  some_taken = omega arith;
  fits = omega (arith, length-append ds (101 ∷ rest));
}

pub past_colon : (ds more : Bytes) → drop (length ds + 1) (ds ++ 58 ∷ more) ≡ more
past_colon ds more =
    ap (drop (length ds + 1)) (sym (append_assoc ds (58 ∷ []) more))
    ∙ drop-append (length ds + 1) (ds ++ 58 ∷ []) more (omega (arith, length-append ds (58 ∷ [])))

parse_string-Reads :
    (spare ds s rest : Bytes)
    → All (λ b. b ≢ 58) ds
    → parse_int ds ≡ some (pos (length s))
    → 1 ≤ length ds
    → Reads (parse_string spare (ds ++ 58 ∷ (s ++ rest))) (ds ++ 58 ∷ (s ++ rest)) (text s) rest
unfolding parse_string slice_text
parse_string-Reads spare ds s rest plain number some_digit =
    let packet = ds ++ 58 ∷ (s ++ rest) in
    let size : length packet ≡ length ds + 1 + length s + length rest =
      omega (arith, length-append ds (58 ∷ (s ++ rest)), length-append s rest) in
    let behind : drop (length ds + 1) (packet ++ spare) ≡ s ++ (rest ++ spare) =
      ap (drop (length ds + 1)) (append_assoc ds (58 ∷ (s ++ rest)) spare)
      ∙ past_colon ds ((s ++ rest) ++ spare)
      ∙ append_assoc s rest spare in
    record {
      taken = length ds + 1 + length s;
      returns = rw (
        parse_string,
        read_until-append ds 58 (s ++ rest) plain,
        number,
        le→ltb (length packet + length spare) (length ds + 1 + length s) (omega arith),
        behind,
        take-append (length s) s (rest ++ spare) refl,
      );
      leaves =
          sym (drop-drop (length s) (length ds + 1) packet)
          ∙ ap (drop (length s)) (past_colon ds (s ++ rest))
          ∙ drop-append (length s) s rest refl;
      some_taken = omega arith;
      fits = omega arith;
    }

pub parse_ng-integer :
    (f : ℕ) (spare : Bytes) (z : ℤ) (rest : Bytes)
    → IsInt64 z
    → Reads
        (parse_ng (suc f) spare (write_value (integer z) rest))
        (write_value (integer z) rest)
        (integer z)
        rest
unfolding parse_ng write_value
parse_ng-integer f spare z rest h =
    parse_integer-Reads (int_text z) z rest (int_text_end z 101 (omega arith))
      (parse_int-int_text z h)

-- The first digit of a string's length is none of the letters, so the default case is taken.
pub parse_ng-digit :
    (f : ℕ) (spare : Bytes) (d : ℕ) (more : Bytes)
    → IsDigit d
    → parse_ng (suc f) spare (d ∷ more) ≡ parse_string spare (d ∷ more)
unfolding parse_ng
parse_ng-digit f spare d more (lo, hi) = rw (
  ==_of_ne d 105 (λ e. omega arith),
  ==_of_ne d 108 (λ e. omega arith),
  ==_of_ne d 100 (λ e. omega arith),
)

pub parse_ng-text :
    (f : ℕ) (spare s rest : Bytes)
    → 1 ≤ f
    → length s < limit
    → Reads (parse_ng f spare (write_text s rest)) (write_text s rest) (text s) rest
parse_ng-text zero spare s rest some_fuel h = absurd (omega arith)
parse_ng-text (suc f) spare s rest some_fuel h =
    let (d, ds, e, all) = decimal-All (length s) in
    let number : parse_int (d ∷ ds) ≡ some (pos (length s)) =
      ap parse_int (sym e) ∙ parse_int-int_text (pos (length s)) h in
    rw e (
      rw (parse_ng-digit f spare d (ds ++ 58 ∷ (s ++ rest)) all.0) (
        parse_string-Reads spare (d ∷ ds) s rest (digits_end (d ∷ ds) 58 all (omega arith)) number
          (omega arith)))
