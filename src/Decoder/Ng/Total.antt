-- ===== src/Decoder/Ng/Total.antt =====
-- decoder/util.go: `unmarshalNG` ends, and where it panics.
use heplify.Common.{
  ℕ, zero, suc, ◌+◌, ◌*◌, ◌≤◌, ◌≡◌, ◌≢◌, Bool, true, false, ◌||◌, [], ◌∷◌, some, length, drop,
  length-drop, ltb, ◌==◌, if◌then◌else◌, ok, err, panic, stuck, ◌>>=◌, >>=-ne-stuck, arith,
  Option-cases, Bool-cases, inl, inr, not_ltb→le,
}
use heplify.Common.Bytes.{Bytes}
use heplify.Decoder.Ng.Numbers.{ℤ, pos, negsuc, parse_int}
use heplify.Decoder.Ng.{
  Value, Values, nil, Entries, end, integer, text, list, dictionary, Parse, append_item, put_entry,
  read_until, parse_integer, slice_text, parse_string, skip, key_of, parse_ng, parse_items,
  parse_entries, after, unmarshal_ng,
}

-- The call ends, and a value that it returns has taken two bytes at least.
abbrev Takes : Parse (Value × ℕ) → Type 0
Takes (ok (v, n)) = 2 ≤ n
Takes (err e) = Unit
Takes panic = Unit
Takes stuck = ⊥

chosen : (b : Bool) (p q : Parse (Value × ℕ)) → Takes p → Takes q → Takes (if b then p else q)
chosen true p q hp hq = hp
chosen false p q hp hq = hq

on-Takes :
    (o : Parse (Value × ℕ)) (k : Value × ℕ → Parse (Value × ℕ))
    → Takes o
    → ((v : Value) (n : ℕ) → 2 ≤ n → Takes (k (v, n)))
    → Takes (o >>= k)
on-Takes (ok (v, n)) k h hk = hk v n h
on-Takes (err e) k h hk = tt
on-Takes panic k h hk = tt
on-Takes stuck k h hk = h

skip-Takes :
    (n : ℕ) (packet : Bytes) (k : Bytes → Parse (Value × ℕ))
    → (n ≤ length packet → Takes (k (drop n packet)))
    → Takes (skip n packet >>= k)
skip-Takes n packet k h = elim (Bool-cases (ltb (length packet) n)) [
  | inl over ↦ rw over tt
  | inr within ↦ rw within (h (not_ltb→le (length packet) n within))
]

key_of-Takes :
    (v : Value) (k : Bytes → Parse (Value × ℕ))
    → ((key : Bytes) → Takes (k key))
    → Takes (key_of v >>= k)
key_of-Takes (text key) k h = h key
key_of-Takes (integer z) k h = tt
key_of-Takes (list xs) k h = tt
key_of-Takes (dictionary es) k h = tt

parse_integer-Takes : (rest : Bytes) → Takes (parse_integer rest)
unfolding parse_integer
parse_integer-Takes rest = elim (Option-cases (read_until rest 101)) [
  | inl e ↦ rw (parse_integer, e) tt
  | inr ((ds, n), e) ↦ elim (Option-cases (parse_int ds)) [
    | inl bad ↦ rw (parse_integer, e, bad) tt
    | inr (z, good) ↦ rw (parse_integer, e, good) (omega arith)
  ]
]

read_until-length :
    (packet : Bytes) (symbol : ℕ) (s : Bytes) (n : ℕ)
    → read_until packet symbol ≡ some (s, n)
    → n ≡ length s
unfolding read_until
read_until-length [] symbol s n e = cc
read_until-length (b ∷ rest) symbol s n e = elim (Bool-cases (b == symbol)) [
  | inl here ↦ grind (arith, here, e)
  | inr further ↦ elim (Option-cases (read_until rest symbol)) [
    | inl never ↦ grind (arith, further, never, e)
    | inr ((s', n'), found) ↦
        grind (arith, further, found, e, read_until-length rest symbol s' n' found)
  ]
]

slice_text-Takes :
    (spare packet : Bytes) (len : ℕ) (z : ℤ) → 1 ≤ len → Takes (slice_text spare packet len z)
unfolding slice_text
slice_text-Takes spare packet len (pos n) h = chosen _ panic (ok _) tt (omega arith)
slice_text-Takes spare packet len (negsuc n) h = tt

parse_int-some : (s : Bytes) (z : ℤ) → parse_int s ≡ some z → 1 ≤ length s
unfolding parse_int
parse_int-some [] z e = cc
parse_int-some (c ∷ s) z e = omega arith

parse_string-Takes : (spare packet : Bytes) → Takes (parse_string spare packet)
unfolding parse_string
parse_string-Takes spare packet = elim (Option-cases (read_until packet 58)) [
  | inl e ↦ rw (parse_string, e) tt
  | inr ((ds, n), e) ↦ elim (Option-cases (parse_int ds)) [
    | inl bad ↦ rw (parse_string, e, bad) tt
    | inr (z, good) ↦
        rw (parse_string, e, good)
          (slice_text-Takes spare packet n z
            (omega (arith, read_until-length packet 58 ds n e, parse_int-some ds z good)))
  ]
]

mutual
  unfolding parse_ng parse_items parse_entries

  parse_ng-Takes :
      (f : ℕ) (spare packet : Bytes) → 2 * length packet + 1 ≤ f → Takes (parse_ng f spare packet)
  parse_ng-Takes zero spare packet h = absurd (omega arith)
  parse_ng-Takes (suc f) spare [] h = tt
  parse_ng-Takes (suc f) spare (b ∷ rest) h = chosen (b == 105) _ _ (parse_integer-Takes rest) (
      chosen (b == 108) _ _ (parse_items-Takes f spare rest nil 2 (omega arith) (omega arith)) (
        chosen (b == 100) _ _ (parse_entries-Takes f spare rest end 2 (omega arith) (omega arith))
          (parse_string-Takes spare (b ∷ rest))))

  parse_items-Takes :
      (f : ℕ) (spare packet : Bytes) (xs : Values) (total : ℕ)
      → 2 * length packet + 2 ≤ f
      → 2 ≤ total
      → Takes (parse_items f spare packet xs total)
  parse_items-Takes zero spare packet xs total h ht = absurd (omega arith)
  parse_items-Takes (suc f) spare [] xs total h ht = tt
  parse_items-Takes (suc f) spare (b ∷ rest) xs total h ht =
      let packet = b ∷ rest in
      chosen (b == 101) (ok (list xs, total)) _ ht (
        on-Takes (parse_ng f spare packet) _ (parse_ng-Takes f spare packet (omega arith)) λ v n hn.
          skip-Takes n packet _ λ fits.
            parse_items-Takes f spare (drop n packet) (append_item xs v) (total + n)
              (omega (arith, length-drop n packet)) (omega arith))

  parse_entries-Takes :
      (f : ℕ) (spare packet : Bytes) (es : Entries) (total : ℕ)
      → 2 * length packet + 2 ≤ f
      → 2 ≤ total
      → Takes (parse_entries f spare packet es total)
  parse_entries-Takes zero spare packet es total h ht = absurd (omega arith)
  parse_entries-Takes (suc f) spare [] es total h ht = tt
  parse_entries-Takes (suc f) spare (b ∷ rest) es total h ht =
      let packet = b ∷ rest in
      chosen (b == 101) (ok (dictionary es, total)) _ ht (
        on-Takes (parse_ng f spare packet) _ (parse_ng-Takes f spare packet (omega arith)) λ k n hn.
          key_of-Takes k _ λ key. skip-Takes n packet _ λ fits.
            let at_value = drop n packet in
            on-Takes (parse_ng f spare at_value) _
              (parse_ng-Takes f spare at_value (omega (arith, length-drop n packet)))
              λ v m hm. skip-Takes m at_value _ λ fits_too.
                parse_entries-Takes f spare (drop m at_value) (put_entry key v es) (total + n + m)
                  (omega (arith, length-drop n packet, length-drop m at_value)) (omega arith))

Takes-ne-stuck : (o : Parse (Value × ℕ)) → Takes o → o ≢ stuck
Takes-ne-stuck (ok (v, n)) h = λ e. cc
Takes-ne-stuck (err x) h = λ e. cc
Takes-ne-stuck panic h = λ e. cc
Takes-ne-stuck stuck h = absurd h

-- `unmarshalNG` ends on every message, whatever lies behind it in its array.
pub unmarshal_ng-ne-stuck : (spare packet : Bytes) → unmarshal_ng spare packet ≢ stuck
unfolding unmarshal_ng
unmarshal_ng-ne-stuck spare packet =
    let rest = drop (after (read_until packet 32)) packet in
    elim (Bool-cases
      (ltb (after (read_until packet 32)) 6 || ltb 20 (after (read_until packet 32)))) [
        | inl bad ↦ rw bad (λ e. cc)
        | inr fine ↦ rw fine (
            >>=-ne-stuck (parse_ng (2 * length rest + 1) spare rest) _
              (Takes-ne-stuck _ (parse_ng-Takes (2 * length rest + 1) spare rest (omega arith)))
              λ r e stop. cc)
      ]
