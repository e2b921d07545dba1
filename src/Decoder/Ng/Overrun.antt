-- ===== src/Decoder/Ng/Overrun.antt =====
-- decoder/util.go: messages that make `unmarshalNG` panic, or read behind the message.
use heplify.Common.{
  ℕ, zero, suc, ◌+◌, ◌*◌, ◌<◌, ◌≤◌, ◌≡◌, ◌≢◌, refl, [], ◌∷◌, ◌++◌, some, length, drop,
  length-append, take-append, append_assoc, All, ok, panic, arith, ap, ◌∙◌, sym, le→ltb, lt→ltb,
  ==_of_ne, ltb, false,
}
use heplify.Common.Bytes.{Bytes}
use heplify.Decoder.Ng.Numbers.{
  pos, parse_int, decimal, decimal-All, IsDigit, limit, parse_int-int_text,
}
use heplify.Decoder.Ng.{
  Value, parse_items, parse_entries, append_item, put_entry, Values, Entries, nil, cons, end, entry,
  text, slice_text, parse_string, parse_ng, unmarshal_ng,
}
use heplify.Decoder.Ng.RoundTrip.{
  unmarshal_ng-cookie, parse_ng-write_value, parse_items-step, parse_entries-step, rest_length,
  value_head,
}
use heplify.Decoder.Ng.Encode.{
  AreValues, AreEntries, write_value, write_values, write_entries, write_text,
}
use heplify.Decoder.Ng.Leaves.{
  read_until-append, digits_end, past_colon, parse_ng-digit, Reads, parse_ng-text,
}

-- The slice takes the missing bytes from behind the message.
parse_string-overrun :
    (ds s t more : Bytes)
    → All (λ b. b ≢ 58) ds
    → parse_int ds ≡ some (pos (length s + length t))
    → parse_string (t ++ more) (ds ++ 58 ∷ s)
      ≡ ok (text (s ++ t), length ds + 1 + (length s + length t))
unfolding parse_string slice_text
parse_string-overrun ds s t more plain number =
    let packet = ds ++ 58 ∷ s in
    let behind : drop (length ds + 1) (packet ++ (t ++ more)) ≡ (s ++ t) ++ more =
      ap (drop (length ds + 1)) (append_assoc ds (58 ∷ s) (t ++ more))
      ∙ past_colon ds (s ++ (t ++ more))
      ∙ sym (append_assoc s t more) in
    rw (
      parse_string,
      read_until-append ds 58 s plain,
      number,
      le→ltb (length packet + length (t ++ more)) (length ds + 1 + (length s + length t))
          (omega (arith, length-append ds (58 ∷ s), length-append t more)),
      behind,
      take-append (length s + length t) (s ++ t) more (sym (length-append s t)),
    )

-- A string that announces the bytes of s and those of t, and holds the bytes of s only.
abbrev pub overrun : Bytes → Bytes → Bytes
overrun s t = decimal (length s + length t) ++ 58 ∷ s

parse_ng-overrun :
    (f : ℕ) (s t more : Bytes)
    → 1 ≤ f
    → length s + length t < limit
    → (b : ℕ) × (rest : Bytes) × (n : ℕ) × (overrun s t ≡ b ∷ rest)
      × IsDigit b
      × (parse_ng f (t ++ more) (overrun s t) ≡ ok (text (s ++ t), n))
      × (n ≡ length (overrun s t) + length t)
parse_ng-overrun zero s t more fuel h = absurd (omega arith)
parse_ng-overrun (suc f) s t more fuel h =
    let (d, ds, e, all) = decimal-All (length s + length t) in
    let number : parse_int (d ∷ ds) ≡ some (pos (length s + length t)) =
      ap parse_int (sym e) ∙ parse_int-int_text (pos (length s + length t)) h in
    let read =
      parse_string-overrun (d ∷ ds) s t more (digits_end (d ∷ ds) 58 all (omega arith)) number in
    (
      d,
      ds ++ 58 ∷ s,
      length (d ∷ ds) + 1 + (length s + length t),
      rw e refl,
      all.0,
      rw e (parse_ng-digit f (t ++ more) d (ds ++ 58 ∷ s) all.0 ∙ read),
      rw e (omega (arith, length-append ds (58 ∷ s))),
    )

-- A value that ends behind the message is not cut off it.
skip-panics :
    (f : ℕ) (spare packet : Bytes) (xs : Values) (total : ℕ) (v : Value) (n : ℕ)
    → (b : ℕ) × (more : Bytes) × (packet ≡ b ∷ more) × (b ≢ 101)
    → parse_ng f spare packet ≡ ok (v, n)
    → length packet < n
    → parse_items (suc f) spare packet xs total ≡ panic
unfolding parse_items
skip-panics f spare packet xs total v n (b, more, e, ne) read short =
    rw e (rw (==_of_ne b 101 ne, read, lt→ltb (length packet) n short) refl)

skip-panics_entry :
    (f : ℕ) (spare packet at_value : Bytes) (es : Entries) (total : ℕ) (k : Bytes) (v : Value)
    (n : ℕ)
    → (b : ℕ) × (more : Bytes) × (packet ≡ b ∷ more) × (b ≢ 101)
    → (rk : Reads (parse_ng f spare packet) packet (text k) at_value)
    → parse_ng f spare at_value ≡ ok (v, n)
    → length at_value < n
    → parse_entries (suc f) spare packet es total ≡ panic
unfolding parse_entries
skip-panics_entry f spare packet at_value es total k v n (b, more, e, ne) rk read short =
    let inside : ltb (length packet) rk.taken ≡ false = le→ltb (length packet) rk.taken rk.fits in
    rw e (
      rw (==_of_ne b 101 ne, rk.returns, inside, rk.leaves, read, lt→ltb (length at_value) n short)
        refl)

-- In a list, the bytes that the string took are cut off the message, which has not so many.
parse_items-overrun :
    (xs : Values) (f : ℕ) (s t more : Bytes) (acc : Values) (total : ℕ)
    → AreValues xs
    → length s + length t < limit
    → 0 < length t
    → 2 * length (write_values xs (overrun s t)) + 2 ≤ f
    → parse_items f (t ++ more) (write_values xs (overrun s t)) acc total ≡ panic
unfolding write_values AreValues
parse_items-overrun xs zero s t more acc total are h missing fuel = absurd (omega arith)
parse_items-overrun nil (suc f) s t more acc total are h missing fuel =
    let (b, rest, n, e, digit, read, size) = parse_ng-overrun f s t more (omega arith) h in
    let (lo, hi) = digit in
    skip-panics f (t ++ more) (overrun s t) acc total (text (s ++ t)) n
      (b, rest, e, (λ q. omega arith)) read (omega arith)
parse_items-overrun (cons v xs) (suc f) s t more acc total (hv, are) h missing fuel =
    let behind = write_values xs (overrun s t) in
    let r = parse_ng-write_value v f (t ++ more) behind hv (omega arith) in
    parse_items-step f (t ++ more) (write_value v behind) behind acc total v (value_head v behind) r
    ∙ parse_items-overrun xs f s t more (append_item acc v) (total + r.taken) are h missing
        (omega (arith, rest_length r, r.some_taken))

parse_entries-overrun :
    (es : Entries) (f : ℕ) (k s t more : Bytes) (acc : Entries) (total : ℕ)
    → AreEntries es
    → length k < limit
    → length s + length t < limit
    → 0 < length t
    → 2 * length (write_entries es (write_text k (overrun s t))) + 2 ≤ f
    → parse_entries f (t ++ more) (write_entries es (write_text k (overrun s t))) acc total ≡ panic
unfolding write_entries AreEntries
parse_entries-overrun es zero k s t more acc total are hk h missing fuel = absurd (omega arith)
parse_entries-overrun end (suc f) k s t more acc total are hk h missing fuel =
    let (b, rest, n, e, digit, read, size) = parse_ng-overrun f s t more (omega arith) h in
    let at_value = overrun s t in
    let rk = parse_ng-text f (t ++ more) k at_value (omega arith) hk in
    skip-panics_entry f (t ++ more) (write_text k at_value) at_value acc total k (text (s ++ t)) n
      (value_head (text k) at_value) rk read (omega arith)
parse_entries-overrun (entry j v es) (suc f) k s t more acc total (hj, hv, lacks, are) hk h missing
      fuel =
    let behind = write_entries es (write_text k (overrun s t)) in
    let at_value = write_value v behind in
    let rk = parse_ng-text f (t ++ more) j at_value (omega arith) hj in
    let rv = parse_ng-write_value v f (t ++ more) behind hv (omega (arith, rest_length rk)) in
    parse_entries-step f (t ++ more) (write_text j at_value) at_value behind acc total j v
      (value_head (text j) at_value) rk rv
    ∙ parse_entries-overrun es f k s t more (put_entry j v acc) (total + rk.taken + rv.taken) are hk
        h missing (omega (arith, rest_length rk, rest_length rv, rk.some_taken))

parse_ng-list :
    (f : ℕ) (spare body : Bytes)
    → parse_ng (suc f) spare (108 ∷ body) ≡ parse_items f spare body nil 2
unfolding parse_ng
parse_ng-list f spare body = refl

parse_ng-dictionary :
    (f : ℕ) (spare body : Bytes)
    → parse_ng (suc f) spare (100 ∷ body) ≡ parse_entries f spare body end 2
unfolding parse_ng
parse_ng-dictionary f spare body = refl

module _ (cookie : Bytes) (plain : All (λ b. b ≢ 32) cookie) (long : 5 ≤ length cookie)
    (short : length cookie ≤ 19) where
  -- `unmarshalNG` panics on a cookie of 5 to 19 bytes and a space with nothing behind them.
  pub unmarshal_ng-bare_cookie : (spare : Bytes) → unmarshal_ng spare (cookie ++ 32 ∷ []) ≡ panic
  unmarshal_ng-bare_cookie spare =
      unmarshal_ng-cookie cookie plain long short spare [] ∙ unfold parse_ng in refl

  abbrev message : Bytes → Bytes
  message body = cookie ++ 32 ∷ body

  -- A message whose last bytes are a string that announces more than is left, of which t and others lie
  -- behind the message in its array. As the whole value it is completed with t. As an item of a list, behind
  -- items that are well formed, and as the value of an entry of a dictionary, behind entries that are,
  -- `unmarshalNG` panics.
  pub unmarshal_ng-overrun :
      (s t more k : Bytes) (xs : Values) (es : Entries)
      → length s + length t < limit
      → 0 < length t
      → AreValues xs
      → AreEntries es
      → length k < limit
      → (unmarshal_ng (t ++ more) (message (overrun s t)) ≡ ok (cookie ++ 32 ∷ [], text (s ++ t)))
        × (unmarshal_ng (t ++ more) (message (108 ∷ write_values xs (overrun s t))) ≡ panic)
        × (unmarshal_ng (t ++ more) (message (100 ∷ write_entries es (write_text k (overrun s t))))
            ≡ panic)
  unmarshal_ng-overrun s t more k xs es h missing are are_entries hk =
      let whole = overrun s t in
      let items = write_values xs whole in
      let entries = write_entries es (write_text k whole) in
      let front = unmarshal_ng-cookie cookie plain long short (t ++ more) in
      let (b, rest, n, e, digit, read, size) =
        parse_ng-overrun (2 * length whole + 1) s t more (omega arith) h in
      let one_more : (body : Bytes) (d : ℕ)
          → 2 * length (d ∷ body) + 1 ≡ suc (2 * length body + 2) =
        λ body d. omega arith in
      (
        front whole ∙ rw read refl,
        front (108 ∷ items)
            ∙ rw
                (
                  one_more items 108,
                  parse_ng-list (2 * length items + 2) (t ++ more) items,
                  parse_items-overrun xs (2 * length items + 2) s t more nil 2 are h missing
                      (omega arith),
                )
                refl,
        front (100 ∷ entries)
            ∙ rw
                (
                  one_more entries 100,
                  parse_ng-dictionary (2 * length entries + 2) (t ++ more) entries,
                  parse_entries-overrun es (2 * length entries + 2) k s t more end 2 are_entries hk
                      h missing (omega arith),
                )
                refl,
      )
