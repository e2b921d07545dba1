-- ===== src/Publish/Protobuf/Fields.antt =====
-- publish/hep.pb.go: what the loop of `Unmarshal` reads of one field that `Marshal` wrote.
use heplify.Common.{
  ℕ, ◌+◌, ◌/◌, ◌%◌, ◌^◌, ◌≤◌, ◌<◌, ◌≡◌, ◌≢◌, refl, sym, ap, ◌∙◌, true, false, [], ◌∷◌, ◌++◌,
  append_assoc, length, drop, leb, ==_of_ne, ok, arith,
}
use heplify.Common.Bytes.{Bytes}
use heplify.Publish.Protobuf.{Field, number, text}
use heplify.Publish.Protobuf.Varint.{varint, varint-last}
use heplify.Publish.Protobuf.Wire.{bytes_of, FieldFits}
use heplify.Publish.Protobuf.Unmarshal.{
  uint64_at, is_number, is_text, set_number, set_text, Read, read_number, read_text, read_case,
  read_round,
}
use heplify.Publish.Protobuf.Slices.{drop-past, uint32_at-varint, uint64_at-varint, text_at-bytes}

-- A field of the message: a tag of one byte, of the kind under which the switch expects its number.
abbrev pub IsKnown : Field → Type 0
IsKnown (number tag v) = (8 ≤ tag) × (tag < 128) × (tag % 8 ≡ 0) × (is_number (tag / 8) ≡ true)
IsKnown (text tag s) =
    (8 ≤ tag)
    × (tag < 128)
    × (tag % 8 ≡ 2)
    × (is_number (tag / 8) ≡ false)
    × (is_text (tag / 8) ≡ true)

abbrev pub received : Read → Field → Read
received r (number tag v) = record {
  message = set_number (tag / 8) v r.message;
  seen = tag / 8 ∷ r.seen;
}
received r (text tag s) = record {
  message = set_text (tag / 8) s r.message;
  seen = tag / 8 ∷ r.seen;
}

read_round-tag :
    (r : Read) (d : Bytes) (i tag : ℕ) (rest : Bytes)
    → length d < 2 ^ 63
    → drop i d ≡ tag ∷ rest
    → 8 ≤ tag
    → tag < 128
    → tag % 8 ≢ 4
    → read_round r d i ≡ read_case (tag / 8) (tag % 8) r d i (i + 1)
unfolding read_round
read_round-tag r d i tag rest small at low high no_end =
    let one = varint-last 9 tag (ground arith) in
    let whole =
      uint64_at-varint d i rest small tag (omega arith) (at ∙ ap (λ x. x ++ rest) (sym one)) in
    let short : tag / 8 % 2 ^ 32 ≡ tag / 8 = omega arith in
    let legal : leb (2 ^ 31) (tag / 8) ≡ false = ground arith in
    let step : uint64_at d i ≡ ok (tag, i + 1) = whole ∙ ap (λ x. ok (tag, i + length x)) one in
    rw (step, ==_of_ne (tag % 8) 4 no_end, short, ==_of_ne (tag / 8) 0 (λ e. omega arith), legal)
      refl

read_round-number :
    (r : Read) (d : Bytes) (i tag v : ℕ) (rest : Bytes)
    → length d < 2 ^ 63
    → drop i d ≡ tag ∷ (varint 10 v ++ rest)
    → v < 4294967296
    → IsKnown (number tag v)
    → read_round r d i ≡ ok (received r (number tag v), i + 1 + length (varint 10 v))
unfolding read_case read_number
read_round-number r d i tag v rest small at fit (low, high, kind, known) =
    let behind = drop-past i d (tag ∷ []) at in
    let value = uint32_at-varint d (i + 1) rest small v fit behind in
    rw
      (
        read_round-tag r d i tag (varint 10 v ++ rest) small at low high (λ e. omega arith),
        kind,
        known,
        value,
      )
      refl

read_round-text :
    (r : Read) (d : Bytes) (i tag : ℕ) (s rest : Bytes)
    → length d < 2 ^ 63
    → drop i d ≡ tag ∷ (varint 10 (length s) ++ (s ++ rest))
    → length s < 4294967296
    → IsKnown (text tag s)
    → read_round r d i ≡ ok (received r (text tag s), i + 1 + length (varint 10 (length s) ++ s))
unfolding read_case read_text
read_round-text r d i tag s rest small at fit (low, high, kind, other, known) =
    let v = varint 10 (length s) in
    let behind = drop-past i d (tag ∷ []) at in
    let value = text_at-bytes d s (i + 1) rest small fit behind in
    rw
      (
        read_round-tag r d i tag (v ++ (s ++ rest)) small at low high (λ e. omega arith),
        kind,
        other,
        known,
        value,
      )
      refl

pub read_round-field :
    (r : Read) (d : Bytes) (i : ℕ) (f : Field) (rest : Bytes)
    → length d < 2 ^ 63
    → drop i d ≡ bytes_of f ++ rest
    → FieldFits f
    → IsKnown f
    → read_round r d i ≡ ok (received r f, i + length (bytes_of f))
unfolding bytes_of
read_round-field r d i (number tag v) rest small at fit known =
    read_round-number r d i tag v rest small at fit known
    ∙ ap (λ n. ok (received r (number tag v), n)) {x = i + 1 + length (varint 10 v)} (omega arith)
read_round-field r d i (text tag s) rest small at fit known =
    let v = varint 10 (length s) in
    read_round-text r d i tag s rest small (at ∙ ap (◌∷◌ tag) (append_assoc v s rest)) fit known
    ∙ ap (λ n. ok (received r (text tag s), n)) {x = i + 1 + length (v ++ s)} (omega arith)
