-- ===== src/Decoder/Ng/Encode.antt =====
-- decoder/util.go: bencoding, as a description of what `parseNG` reads.
use heplify.Common.{◌<◌, ◌≡◌, ◌≢◌, refl, ◌∷◌, ◌++◌, length, ap, sym, Bool-cases, inl, inr}
use heplify.Common.Bytes.{Bytes, bytes_eq, bytes_eq_iff}
use heplify.Decoder.Ng.Numbers.{IsInt64, int_text, decimal, limit}
use heplify.Decoder.Ng.{
  Value, Values, Entries, integer, text, list, dictionary, nil, cons, end, entry, append_item,
  put_entry,
}

abbrev pub write_text : Bytes → Bytes → Bytes
write_text s rest = decimal (length s) ++ 58 ∷ (s ++ rest)

-- The bytes of a value, in front of what is given.
unfoldable mutual
  pub write_value : Value → Bytes → Bytes
  write_value (integer z) rest = 105 ∷ (int_text z ++ 101 ∷ rest)
  write_value (text s) rest = write_text s rest
  write_value (list xs) rest = 108 ∷ write_values xs (101 ∷ rest)
  write_value (dictionary es) rest = 100 ∷ write_entries es (101 ∷ rest)

  pub write_values : Values → Bytes → Bytes
  write_values nil rest = rest
  write_values (cons v xs) rest = write_value v (write_values xs rest)

  pub write_entries : Entries → Bytes → Bytes
  write_entries end rest = rest
  write_entries (entry k v es) rest = write_text k (write_value v (write_entries es rest))

-- No entry has the key.
abbrev pub Lacks : Bytes → Entries → Type 0
Lacks k end = Unit
Lacks k (entry k' v es) = (k ≢ k') × Lacks k es

-- Numbers fit 64 bits, and a dictionary holds a key once.
unfoldable mutual
  pub IsValue : Value → Type 0
  IsValue (integer z) = IsInt64 z
  IsValue (text s) = length s < limit
  IsValue (list xs) = AreValues xs
  IsValue (dictionary es) = AreEntries es

  pub AreValues : Values → Type 0
  AreValues nil = Unit
  AreValues (cons v xs) = IsValue v × AreValues xs

  pub AreEntries : Entries → Type 0
  AreEntries end = Unit
  AreEntries (entry k v es) = (length k < limit) × IsValue v × Lacks k es × AreEntries es

-- Lists and dictionaries put together.
unfoldable pub append_items : Values → Values → Values
append_items nil ys = ys
append_items (cons x xs) ys = cons x (append_items xs ys)

unfoldable pub join : Entries → Entries → Entries
join end es = es
join (entry k v acc) es = entry k v (join acc es)

pub append_item-append_items :
    (xs : Values) (v : Value) (ys : Values)
    → append_items (append_item xs v) ys ≡ append_items xs (cons v ys)
unfolding append_items append_item
append_item-append_items nil v ys = refl
append_item-append_items (cons x xs) v ys = ap (cons x) (append_item-append_items xs v ys)

pub append_items-nil : (xs : Values) → append_items xs nil ≡ xs
unfolding append_items
append_items-nil nil = refl
append_items-nil (cons x xs) = ap (cons x) (append_items-nil xs)

pub join-end : (es : Entries) → join es end ≡ es
unfolding join
join-end end = refl
join-end (entry k v es) = ap (entry k v) (join-end es)

-- A new key goes behind the others.
pub put_entry-join :
    (k : Bytes) (v : Value) (acc es : Entries)
    → Lacks k acc
    → join (put_entry k v acc) es ≡ join acc (entry k v es)
unfolding join put_entry
put_entry-join k v end es h = refl
put_entry-join k v (entry k' v' acc) es (ne, h) = elim (Bool-cases (bytes_eq k k')) [
  | inl same ↦ absurd (ne ((bytes_eq_iff k k').0 same))
  | inr other ↦ rw other (ap (entry k' v') (put_entry-join k v acc es h))
]

-- None of the keys is in `acc`.
abbrev pub Apart : Entries → Entries → Type 0
Apart acc end = Unit
Apart acc (entry k v es) = Lacks k acc × Apart acc es

put_entry-Lacks :
    (k : Bytes) (v : Value) (k' : Bytes) (acc : Entries)
    → Lacks k' acc
    → k' ≢ k
    → Lacks k' (put_entry k v acc)
unfolding put_entry
put_entry-Lacks k v k' end h ne = (ne, tt)
put_entry-Lacks k v k' (entry k1 v1 acc) (ne1, h) ne = elim (Bool-cases (bytes_eq k k1)) [
  | inl same ↦ rw same (ne, h)
  | inr other ↦ rw other (ne1, put_entry-Lacks k v k' acc h ne)
]

pub put_entry-Apart :
    (k : Bytes) (v : Value) (acc es : Entries)
    → Apart acc es
    → Lacks k es
    → Apart (put_entry k v acc) es
put_entry-Apart k v acc end h lacks = tt
put_entry-Apart k v acc (entry k' v' es) (h, hs) (ne, lacks) =
    (put_entry-Lacks k v k' acc h (λ e. ne (sym e)), put_entry-Apart k v acc es hs lacks)

pub end-Apart : (es : Entries) → Apart end es
end-Apart end = tt
end-Apart (entry k v es) = (tt, end-Apart es)
