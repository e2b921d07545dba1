-- ===== src/Publish/Protobuf/Unmarshal.antt =====
-- publish/hep.pb.go: `Unmarshal` and `skipHep`.
use heplify.Common.{
  ℕ, zero, suc, ◌+◌, ◌-◌, ◌*◌, ◌/◌, ◌%◌, ◌^◌, Bool, false, ◌||◌, List, [], ◌∷◌, Option, none, some,
  length, take, drop, get_elem?, ltb, leb, ◌==◌, if◌then◌else◌, Outcome, ok, err, panic, stuck,
  ◌>>=◌,
}
use heplify.Common.Bytes.{Bytes}
use heplify.Publish.Protobuf.{Hep}

pub data UnmarshalError : Type 0 where
  int_overflow : UnmarshalError
  unexpected_eof : UnmarshalError
  invalid_length : UnmarshalError
  end_group : UnmarshalError
  illegal_tag : ℕ → ℕ → UnmarshalError
  wrong_wire_type : ℕ → ℕ → UnmarshalError
  illegal_wire_type : ℕ → UnmarshalError
  required_not_set : ℕ → UnmarshalError

-- An int has 64 bits in two's complement: from 2^63 on it is negative, and as an index beyond any slice.
abbrev pub is_negative : ℕ → Bool
is_negative i = leb (2 ^ 63) i

abbrev pub plus_int : ℕ → ℕ → ℕ
plus_int i n = (i + n) % 2 ^ 64

-- `iNdEx >= l`
abbrev pub past_end : Bytes → ℕ → Bool
past_end d i = if is_negative i then false else leb (length d) i

-- `dAtA[iNdEx]`
abbrev pub byte_at : Bytes → ℕ → Outcome UnmarshalError ℕ
byte_at d i = elim (get_elem? d i) [ none ↦ panic | some b ↦ ok b ]

-- The loops that read a varint into a variable of so many values, with the weight 2^shift of the next
-- seven bits. The rounds left count the shift up to 64; the bits do not overlap, so `|=` adds.
unfoldable pub uint_from : ℕ → ℕ → ℕ → ℕ → Bytes → ℕ → Outcome UnmarshalError (ℕ × ℕ)
uint_from values zero weight acc d i = err int_overflow
uint_from values (suc rounds) weight acc d i =
    let more = byte_at d i >>= λ b.
    (let next = (acc + b % 128 * weight) % values in
      let rest = uint_from values rounds (weight * 128) next d (i + 1) in
      if ltb b 128 then ok (next, i + 1) else rest) in
    if past_end d i then err unexpected_eof else more

abbrev pub uint64_at : Bytes → ℕ → Outcome UnmarshalError (ℕ × ℕ)
uint64_at d i = uint_from (2 ^ 64) 10 1 0 d i

abbrev pub uint32_at : Bytes → ℕ → Outcome UnmarshalError (ℕ × ℕ)
uint32_at d i = uint_from (2 ^ 32) 10 1 0 d i

-- `string(dAtA[iNdEx:postIndex])` and `iNdEx = postIndex`
abbrev pub text_to : Bytes → ℕ → ℕ → Outcome UnmarshalError (Bytes × ℕ)
text_to d i post =
    if is_negative post
    then panic
    else if ltb (length d) post
    then err unexpected_eof
    else ok (take (post - i) (drop i d), post)

abbrev pub text_at : Bytes → ℕ → Outcome UnmarshalError (Bytes × ℕ)
text_at d i = uint64_at d i >>= λ (n, i).
    (if is_negative n then err invalid_length else text_to d i (plus_int i n))

-- The fields that the switch reads as a number, and those that it reads as a string.
abbrev pub is_number : ℕ → Bool
is_number n =
    n == 1 || n == 2 || n == 5 || n == 6 || n == 7 || n == 8 || n == 9 || n == 10 || n == 14

abbrev pub is_text : ℕ → Bool
is_text n = n == 3 || n == 4 || n == 11 || n == 12 || n == 13

unfoldable pub set_number : ℕ → ℕ → Hep → Hep
set_number n v m =
    if n == 1
    then record m { version = v }
    else if n == 2
    then record m { protocol = v }
    else if n == 5
    then record m { src_port = v }
    else if n == 6
    then record m { dst_port = v }
    else if n == 7
    then record m { tsec = v }
    else if n == 8
    then record m { tmsec = v }
    else if n == 9
    then record m { proto_type = v }
    else if n == 10
    then record m { node_id = v }
    else if n == 14
    then record m { vlan = v }
    else m

unfoldable pub set_text : ℕ → Bytes → Hep → Hep
set_text n s m =
    if n == 3
    then record m { src_ip = s }
    else if n == 4
    then record m { dst_ip = s }
    else if n == 11
    then record m { node_pw = s }
    else if n == 12
    then record m { payload = s }
    else if n == 13
    then record m { cid = s }
    else m

-- `skipHep`, with the loop over the fields of a group. Each call takes a byte at least.
unfoldable mutual
  pub skip_hep : ℕ → Bytes → Outcome UnmarshalError ℕ
  skip_hep zero d = stuck
  skip_hep (suc fuel) [] = panic
  skip_hep (suc fuel) (b ∷ bs) =
      let d = b ∷ bs in
      uint64_at d 0 >>= λ (wire, i).
      (let group = skip_group fuel d i in
        let number = uint64_at d i >>= λ (v, i). ok i in
        let text = uint64_at d i >>= λ (n, i).
        (if is_negative n then err invalid_length else ok (plus_int i n)) in
        let kind = wire % 8 in
        if kind == 0
        then number
        else if kind == 1
        then ok (i + 8)
        else if kind == 2
        then text
        else if kind == 3
        then group
        else if kind == 4
        then ok i
        else if kind == 5
        then ok (i + 4)
        else err (illegal_wire_type kind))

  pub skip_group : ℕ → Bytes → ℕ → Outcome UnmarshalError ℕ
  skip_group zero d start = stuck
  skip_group (suc fuel) d start = uint64_at d start >>= λ (wire, i).
      (let skipped =
          skip_hep fuel (drop start d) >>= λ next. skip_group fuel d (plus_int start next) in
        if wire % 8 == 4 then ok i else skipped)

-- The message so far, and the fields that `hasFields` has a bit for.
pub record Read : Type 0 where
  pub message : Hep
  pub seen : List ℕ

abbrev pub Advance : Type 0
Advance = Outcome UnmarshalError (Read × ℕ)

unfoldable pub read_number : ℕ → Read → Bytes → ℕ → Advance
read_number n r d i = uint32_at d i >>= λ (v, i).
    ok (record { message = set_number n v r.message; seen = n ∷ r.seen }, i)

unfoldable pub read_text : ℕ → Read → Bytes → ℕ → Advance
read_text n r d i =
    text_at d i >>= λ (s, i). ok (record { message = set_text n s r.message; seen = n ∷ r.seen }, i)

-- The default of the switch: the field is skipped from its tag on.
unfoldable pub skip_field : Read → Bytes → ℕ → Advance
unfolding skip_hep
skip_field r d i = skip_hep (2 * length d + 2) (drop i d) >>= λ skippy.
    (if is_negative skippy
      then err invalid_length
      else if (if is_negative (plus_int i skippy)
          then false
          else ltb (length d) (plus_int i skippy))
      then err unexpected_eof
      else ok (r, plus_int i skippy))

-- The switch over the field's number.
unfoldable pub read_case : ℕ → ℕ → Read → Bytes → ℕ → ℕ → Advance
unfolding read_number read_text skip_field
read_case n kind r d before i =
    let number = if kind == 0 then read_number n r d i else err (wrong_wire_type kind n) in
    let text = if kind == 2 then read_text n r d i else err (wrong_wire_type kind n) in
    if is_number n then number else if is_text n then text else skip_field r d before

-- One round of the loop: `int32(wire >> 3)` is the field's number.
unfoldable pub read_round : Read → Bytes → ℕ → Advance
unfolding read_case
read_round r d before = uint64_at d before >>= λ (wire, i).
    (let n = wire / 8 % 2 ^ 32 in
      if wire % 8 == 4
      then err end_group
      else if n == 0 || leb (2 ^ 31) n
      then err (illegal_tag n wire)
      else read_case n (wire % 8) r d before i)

-- The loop, while `iNdEx < l`.
unfoldable pub read_all : ℕ → Bytes → ℕ → Read → Advance
unfolding read_round
read_all zero d i r = stuck
read_all (suc fuel) d i r =
    let more = read_round r d i >>= λ (r, i). read_all fuel d i r in
    if past_end d i then ok (r, i) else more

abbrev has : List ℕ → ℕ → Bool
has [] n = false
has (x ∷ xs) n = x == n || has xs n

-- The first of the fields, from a number on, that was not there.
unfoldable pub first_missing : ℕ → ℕ → List ℕ → Option ℕ
first_missing zero n seen = none
first_missing (suc left) n seen =
    let rest = first_missing left (suc n) seen in if has seen n then rest else some n

-- What stands behind the loop.
unfoldable pub required : Bytes → Read → ℕ → Outcome UnmarshalError Hep
unfolding first_missing
required d r i = elim (first_missing 14 1 r.seen) [
  | some n ↦ err (required_not_set n)
  | none ↦
      if is_negative i
      then ok r.message
      else if ltb (length d) i
      then err unexpected_eof
      else ok r.message
]

-- `Unmarshal`, into a message `m`; on an error what it holds is left out.
unfoldable pub unmarshal : Bytes → Hep → Outcome UnmarshalError Hep
unfolding read_all required
unmarshal d m =
    read_all (length d + 1) d 0 (record { message = m; seen = [] }) >>= λ (r, i). required d r i
