-- ===== src/Decoder/Ng.antt =====
-- decoder/util.go: the parser of the rtpengine NG protocol's bencoded messages.
-- A slice expression may reach into its array behind the message, up to the capacity: `spare` is
-- what lies there.
pub mod Numbers
pub mod Total
pub mod Encode
pub mod Leaves
pub mod RoundTrip
pub mod Overrun
mod Runs
use heplify.Common.{
  ℕ, zero, suc, ◌+◌, ◌-◌, ◌*◌, Bool, true, false, ◌||◌, List, [], ◌∷◌, ◌++◌, Option, none, some,
  length, take, drop, ltb, leb, ◌==◌, if◌then◌else◌, Outcome, ok, err, panic, stuck, ◌>>=◌,
}
use heplify.Common.Bytes.{Bytes, bytes_eq}
use heplify.Decoder.Ng.Numbers.{ℤ, pos, negsuc, parse_int}

-- The dynamic types of what `parseNG` returns; a dictionary holds each key once.
mutual
  pub data Value : Type 0 where
    integer : ℤ → Value
    text : Bytes → Value
    list : Values → Value
    dictionary : Entries → Value

  pub data Values : Type 0 where
    nil : Values
    cons : Value → Values → Values

  pub data Entries : Type 0 where
    end : Entries
    entry : Bytes → Value → Entries → Entries

pub data NgError : Type 0 where
  invalid_cookie invalid_integer invalid_number invalid_list invalid_dictionary non_string_key
        invalid_string :
      NgError

abbrev pub Parse {ℓ} : Type ℓ → Type ℓ
Parse A = Outcome NgError A

-- `append` to the list.
unfoldable pub append_item : Values → Value → Values
append_item nil v = cons v nil
append_item (cons x xs) v = cons x (append_item xs v)

-- `dictionary[string(key)] = value`
unfoldable pub put_entry : Bytes → Value → Entries → Entries
put_entry k v end = entry k v end
put_entry k v (entry k' v' es) =
    let rest = put_entry k v es in if bytes_eq k k' then entry k v es else entry k' v' rest

-- `readUntil`: the bytes before the symbol and their number.
unfoldable pub read_until : Bytes → ℕ → Option (Bytes × ℕ)
read_until [] symbol = none
read_until (b ∷ rest) symbol =
    let further = read_until rest symbol in
    if b == symbol
    then some ([], 0)
    else elim further [ none ↦ none | some (s, n) ↦ some (b ∷ s, suc n) ]

-- The case 'i', behind the letter.
unfoldable pub parse_integer : Bytes → Parse (Value × ℕ)
parse_integer rest = elim (read_until rest 101) [
  | none ↦ err invalid_integer
  | some (digits, len) ↦ elim (parse_int digits) [
    | none ↦ err invalid_number
    | some z ↦ ok (integer z, len + 2)
  ]
]

-- `data[length+1 : endPosition]`. The sum may wrap in the code, for a length near 2 ^ 63: it is
-- negative then, and the slice panics as it does here.
unfoldable pub slice_text : Bytes → Bytes → ℕ → ℤ → Parse (Value × ℕ)
slice_text spare packet len (pos n) =
    if ltb (length packet + length spare) (len + 1 + n)
    then panic
    else ok (text (take n (drop (len + 1) (packet ++ spare))), len + 1 + n)
slice_text spare packet len (negsuc n) = panic

-- The default case.
unfoldable pub parse_string : Bytes → Bytes → Parse (Value × ℕ)
parse_string spare packet = elim (read_until packet 58) [
  | none ↦ err invalid_string
  | some (digits, len) ↦ elim (parse_int digits) [
    | none ↦ err invalid_number
    | some z ↦ slice_text spare packet len z
  ]
]

-- `data = data[length:]`
abbrev pub skip : ℕ → Bytes → Parse Bytes
skip n packet = if ltb (length packet) n then panic else ok (drop n packet)

abbrev pub key_of : Value → Parse Bytes
key_of (text k) = ok k
key_of v = err non_string_key

-- `parseNG`, and the loops of its cases 'l' and 'd' with their variables.
unfoldable mutual
  pub parse_ng : ℕ → Bytes → Bytes → Parse (Value × ℕ)
  parse_ng zero spare packet = stuck
  parse_ng (suc f) spare packet =
      let items = parse_items f spare (drop 1 packet) nil 2 in
      let entries = parse_entries f spare (drop 1 packet) end 2 in
      let string = parse_string spare packet in
      elim packet [
        | [] ↦ panic
        | b ∷ rest ↦
            if b == 105
            then parse_integer rest
            else if b == 108
            then items
            else if b == 100
            then entries
            else string
      ]

  pub parse_items : ℕ → Bytes → Bytes → Values → ℕ → Parse (Value × ℕ)
  parse_items zero spare packet xs total = stuck
  parse_items (suc f) spare packet xs total =
      let rest = (do
        (v, len) ← parse_ng f spare packet
        behind ← skip len packet
        parse_items f spare behind (append_item xs v) (total + len)) in
      elim packet [ [] ↦ err invalid_list | b ∷ _ ↦ if b == 101 then ok (list xs, total) else rest ]

  pub parse_entries : ℕ → Bytes → Bytes → Entries → ℕ → Parse (Value × ℕ)
  parse_entries zero spare packet es total = stuck
  parse_entries (suc f) spare packet es total =
      let rest = (do
        (k, key_len) ← parse_ng f spare packet
        key ← key_of k
        at_value ← skip key_len packet
        (v, len) ← parse_ng f spare at_value
        behind ← skip len at_value
        parse_entries f spare behind (put_entry key v es) (total + key_len + len)) in
      elim packet [
        | [] ↦ err invalid_dictionary
        | b ∷ _ ↦ if b == 101 then ok (dictionary es, total) else rest
      ]

-- `bytes.Index(data, []byte(" ")) + 1`
abbrev pub after : Option (Bytes × ℕ) → ℕ
after none = 0
after (some (s, n)) = n + 1

-- `unmarshalNG`. The fuel is enough, since each value takes 2 bytes at least.
unfoldable pub unmarshal_ng : Bytes → Bytes → Parse (Bytes × Value)
unmarshal_ng spare packet =
    let cookie_end = after (read_until packet 32) in
    let rest = drop cookie_end packet in
    let parsed = parse_ng (2 * length rest + 1) spare rest in
    if ltb cookie_end 6 || ltb 20 cookie_end
    then err invalid_cookie
    else (parsed >>= λ (v, len). ok (take cookie_end packet, v))
