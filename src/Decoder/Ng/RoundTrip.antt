-- ===== src/Decoder/Ng/RoundTrip.antt =====
-- decoder/util.go: `parseNG` and `unmarshalNG` read what bencoding writes.
use heplify.Common.{
  ℕ, zero, suc, ◌+◌, ◌*◌, ◌≤◌, ◌≡◌, ◌≢◌, refl, false, [], ◌∷◌, ◌++◌, length, take, drop,
  length-append, length-drop, take-append, drop-append, append_assoc, ltb, All, ok, ◌>>=◌, arith,
  ap, ◌∙◌, sym, ==_of_ne, le→ltb, drop-drop,
}
use heplify.Common.Bytes.{Bytes}
use heplify.Decoder.Ng.Numbers.{decimal-All, int_text}
use heplify.Decoder.Ng.{
  Value, Values, nil, cons, Entries, end, entry, integer, text, list, dictionary, Parse,
  append_item, put_entry, parse_ng, parse_items, parse_entries, unmarshal_ng,
}
use heplify.Decoder.Ng.Encode.{
  write_text, write_value, write_values, write_entries, IsValue, AreValues, AreEntries, Apart,
  append_items, join, append_item-append_items, append_items-nil, join-end, put_entry-join,
  put_entry-Apart, end-Apart,
}
use heplify.Decoder.Ng.Leaves.{Reads, read_until-append, parse_ng-integer, parse_ng-text}

-- The loop of a list or a dictionary returns `v` and the length so far with what it took, up to the
-- end mark.
record ReadsAll (call : Parse (Value × ℕ)) (packet : Bytes) (v : Value) (total : ℕ) (rest : Bytes)
    : Type 0 where
  taken : ℕ
  returns : call ≡ ok (v, total + taken)
  leaves : drop (taken + 1) packet ≡ rest
  fits : taken + 1 ≤ length packet

-- No value begins with the end mark.
pub value_head :
    (v : Value) (rest : Bytes)
    → (b : ℕ) × (more : Bytes) × (write_value v rest ≡ b ∷ more) × (b ≢ 101)
unfolding write_value
value_head (integer z) rest = (105, int_text z ++ 101 ∷ rest, refl, (λ e. omega arith))
value_head (text s) rest =
    let (d, ds, e, ((lo, hi), all)) = decimal-All (length s) in
    (d, ds ++ 58 ∷ (s ++ rest), rw e, (λ e. omega arith))
value_head (list xs) rest = (108, write_values xs (101 ∷ rest), refl, (λ e. omega arith))
value_head (dictionary es) rest = (100, write_entries es (101 ∷ rest), refl, (λ e. omega arith))

-- A round of the list's loop.
pub parse_items-step :
    (f : ℕ) (spare packet rest : Bytes) (xs : Values) (total : ℕ) (v : Value)
    → (b : ℕ) × (more : Bytes) × (packet ≡ b ∷ more) × (b ≢ 101)
    → (r : Reads (parse_ng f spare packet) packet v rest)
    → parse_items (suc f) spare packet xs total
      ≡ parse_items f spare rest (append_item xs v) (total + r.taken)
unfolding parse_items
parse_items-step f spare packet rest xs total v (b, more, e, ne) r =
    let inside : ltb (length packet) r.taken ≡ false = le→ltb (length packet) r.taken r.fits in
    rw e (rw (==_of_ne b 101 ne, r.returns, inside, r.leaves))

-- A round of the dictionary's loop.
pub parse_entries-step :
    (f : ℕ) (spare packet at_value rest : Bytes) (es : Entries) (total : ℕ) (k : Bytes) (v : Value)
    → (b : ℕ) × (more : Bytes) × (packet ≡ b ∷ more) × (b ≢ 101)
    → (rk : Reads (parse_ng f spare packet) packet (text k) at_value)
    → (rv : Reads (parse_ng f spare at_value) at_value v rest)
    → parse_entries (suc f) spare packet es total
      ≡ parse_entries f spare rest (put_entry k v es) (total + rk.taken + rv.taken)
unfolding parse_entries
parse_entries-step f spare packet at_value rest es total k v (b, more, e, ne) rk rv =
    let inside : ltb (length packet) rk.taken ≡ false = le→ltb (length packet) rk.taken rk.fits in
    let inside_value : ltb (length at_value) rv.taken ≡ false =
      le→ltb (length at_value) rv.taken rv.fits in
    rw e
      (rw (==_of_ne b 101 ne, rk.returns, inside, rk.leaves, rv.returns, inside_value, rv.leaves))

-- What follows the value follows its first part's rest.
drop_both :
    (n m : ℕ) (packet between rest : Bytes)
    → drop n packet ≡ between
    → drop (m + 1) between ≡ rest
    → drop (n + m + 1) packet ≡ rest
drop_both n m packet between rest e e' =
    ap (λ k. drop k packet) {x = n + m + 1} {y = n + (m + 1)} (omega arith)
    ∙ sym (drop-drop (m + 1) n packet)
    ∙ ap (drop (m + 1)) e
    ∙ e'

drop_mark :
    (m b : ℕ) (packet rest : Bytes) → drop (m + 1) packet ≡ rest → drop (2 + m) (b ∷ packet) ≡ rest
drop_mark m b packet rest e =
    ap (λ k. drop k (b ∷ packet)) {x = 2 + m} {y = suc (m + 1)} (omega arith) ∙ e

-- What a value took is off the length.
pub rest_length :
    {call : Parse (Value × ℕ)} {packet : Bytes} {v : Value} {rest : Bytes}
    (r : Reads call packet v rest)
    → length packet ≡ r.taken + length rest
rest_length {call} {packet} {v} {rest} r =
    omega (arith, r.fits, length-drop r.taken packet, ap length r.leaves)

mutual
  unfolding parse_ng parse_items parse_entries write_value IsValue append_items join

  pub parse_ng-write_value :
      (v : Value) (f : ℕ) (spare rest : Bytes)
      → IsValue v
      → 2 * length (write_value v rest) + 1 ≤ f
      → Reads (parse_ng f spare (write_value v rest)) (write_value v rest) v rest
  parse_ng-write_value v zero spare rest h fuel = absurd (omega arith)
  parse_ng-write_value (integer z) (suc f) spare rest h fuel = parse_ng-integer f spare z rest h
  parse_ng-write_value (text s) (suc f) spare rest h fuel =
      parse_ng-text (suc f) spare s rest (omega arith) h
  parse_ng-write_value (list xs) (suc f) spare rest h fuel =
      let r = parse_items-write_values xs f spare rest nil 2 h (omega arith) in
      record {
        taken = 2 + r.taken;
        returns = r.returns;
        leaves = drop_mark r.taken 108 (write_values xs (101 ∷ rest)) rest r.leaves;
        some_taken = omega arith;
        fits = omega (arith, r.fits);
      }
  parse_ng-write_value (dictionary es) (suc f) spare rest h fuel =
      let r = parse_entries-write_entries es f spare rest end 2 h (end-Apart es) (omega arith) in
      record {
        taken = 2 + r.taken;
        returns = r.returns;
        leaves = drop_mark r.taken 100 (write_entries es (101 ∷ rest)) rest r.leaves;
        some_taken = omega arith;
        fits = omega (arith, r.fits);
      }

  parse_items-write_values :
      (xs : Values) (f : ℕ) (spare rest : Bytes) (acc : Values) (total : ℕ)
      → AreValues xs
      → 2 * length (write_values xs (101 ∷ rest)) + 2 ≤ f
      → ReadsAll
          (parse_items f spare (write_values xs (101 ∷ rest)) acc total)
          (write_values xs (101 ∷ rest))
          (list (append_items acc xs))
          total
          rest
  parse_items-write_values xs zero spare rest acc total h fuel = absurd (omega arith)
  parse_items-write_values nil (suc f) spare rest acc total h fuel =
      let none_more : total + 0 ≡ total = omega arith in
      record {
        taken = 0;
        returns = rw (append_items-nil acc, none_more);
        leaves = refl;
        fits = omega arith;
      }
  parse_items-write_values (cons v xs) (suc f) spare rest acc total (hv, h) fuel =
      let behind = write_values xs (101 ∷ rest) in
      let r = parse_ng-write_value v f spare behind hv (omega arith) in
      let rs =
        parse_items-write_values xs f spare rest (append_item acc v) (total + r.taken) h
          (omega (arith, rest_length r, r.some_taken)) in
      let sum : total + r.taken + rs.taken ≡ total + (r.taken + rs.taken) = omega arith in
      record {
        taken = r.taken + rs.taken;
        returns =
            parse_items-step f spare (write_value v behind) behind acc total v (value_head v behind)
              r
            ∙ rs.returns
            ∙ rw (append_item-append_items acc v xs, sum);
        leaves = drop_both r.taken rs.taken (write_value v behind) behind rest r.leaves rs.leaves;
        fits = omega (arith, rest_length r, rs.fits);
      }

  parse_entries-write_entries :
      (es : Entries) (f : ℕ) (spare rest : Bytes) (acc : Entries) (total : ℕ)
      → AreEntries es
      → Apart acc es
      → 2 * length (write_entries es (101 ∷ rest)) + 2 ≤ f
      → ReadsAll
          (parse_entries f spare (write_entries es (101 ∷ rest)) acc total)
          (write_entries es (101 ∷ rest))
          (dictionary (join acc es))
          total
          rest
  parse_entries-write_entries es zero spare rest acc total h apart fuel = absurd (omega arith)
  parse_entries-write_entries end (suc f) spare rest acc total h apart fuel =
      let none_more : total + 0 ≡ total = omega arith in
      record {
        taken = 0;
        returns = rw (join-end acc, none_more);
        leaves = refl;
        fits = omega arith;
      }
  parse_entries-write_entries (entry k v es) (suc f) spare rest acc total (hk, hv, lacks, h)
        (fresh, apart) fuel =
      let behind = write_entries es (101 ∷ rest) in
      let at_value = write_value v behind in
      let rk = parse_ng-text f spare k at_value (omega arith) hk in
      let rv = parse_ng-write_value v f spare behind hv (omega (arith, rest_length rk)) in
      let rs =
        parse_entries-write_entries es f spare rest (put_entry k v acc)
          (total + rk.taken + rv.taken) h (put_entry-Apart k v acc es apart lacks)
          (omega (arith, rest_length rk, rest_length rv, rk.some_taken)) in
      let sum : total + rk.taken + rv.taken + rs.taken
          ≡ total + (rk.taken + (rv.taken + rs.taken)) =
        omega arith in
      record {
        taken = rk.taken + (rv.taken + rs.taken);
        returns =
            parse_entries-step f spare (write_text k at_value) at_value behind acc total k v
              (value_head (text k) at_value) rk rv
            ∙ rs.returns
            ∙ rw (put_entry-join k v acc es fresh, sum);
        leaves =
            drop_both rk.taken (rv.taken + rs.taken) (write_text k at_value) at_value rest rk.leaves
              (drop_both rv.taken rs.taken at_value behind rest rv.leaves rs.leaves);
        fits = omega (arith, rest_length rk, rest_length rv, rs.fits);
      }

-- The cookie is cut off, and the rest is parsed.
pub unmarshal_ng-cookie :
    (cookie : Bytes)
    → All (λ b. b ≢ 32) cookie
    → 5 ≤ length cookie
    → length cookie ≤ 19
    → (spare body : Bytes)
    → unmarshal_ng spare (cookie ++ 32 ∷ body)
      ≡ (parse_ng (2 * length body + 1) spare body >>= λ (v, len). ok (cookie ++ 32 ∷ [], v))
unfolding unmarshal_ng
unmarshal_ng-cookie cookie plain long short spare body =
    let message = cookie ++ 32 ∷ body in
    let whole : message ≡ (cookie ++ 32 ∷ []) ++ body = sym (append_assoc cookie (32 ∷ []) body) in
    let front : length cookie + 1 ≡ length (cookie ++ 32 ∷ []) =
      omega (arith, length-append cookie (32 ∷ [])) in
    let behind : drop (length cookie + 1) message ≡ body =
      ap (drop (length cookie + 1)) whole
      ∙ drop-append (length cookie + 1) (cookie ++ 32 ∷ []) body front in
    let before : take (length cookie + 1) message ≡ cookie ++ 32 ∷ [] =
      ap (take (length cookie + 1)) whole
      ∙ take-append (length cookie + 1) (cookie ++ 32 ∷ []) body front in
    rw (
      read_until-append cookie 32 body plain,
      le→ltb (length cookie + 1) 6 (omega arith),
      le→ltb 20 (length cookie + 1) (omega arith),
      behind,
      before,
    )

-- `unmarshalNG` of a cookie and a bencoded value, its numbers in 64 bits and each dictionary holding
-- a key once, gives both back, whatever lies behind the message in its array.
pub unmarshal_ng-write_value :
    (spare cookie : Bytes) (v : Value)
    → All (λ b. b ≢ 32) cookie
    → 5 ≤ length cookie
    → length cookie ≤ 19
    → IsValue v
    → unmarshal_ng spare (cookie ++ 32 ∷ write_value v []) ≡ ok (cookie ++ 32 ∷ [], v)
unmarshal_ng-write_value spare cookie v plain long short h =
    let body = write_value v [] in
    let r = parse_ng-write_value v (2 * length body + 1) spare [] h (omega arith) in
    unmarshal_ng-cookie cookie plain long short spare body ∙ rw r.returns
