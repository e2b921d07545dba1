-- ===== src/Publish/Protobuf/RoundTrip.antt =====
-- publish/hep.pb.go: `Unmarshal` of what `Marshal` writes.
use heplify.Common.{
  ℕ, zero, suc, ◌+◌, ◌^◌, ◌≤◌, ◌<◌, ◌≡◌, refl, ap, true, false, List, [], ◌∷◌, length-append,
  length-drop, Option, length, drop, le→ltb, All, ok, arith,
}
use heplify.Common.Bytes.{Bytes, IsU16}
use heplify.Publish.Hep.{Packet, contents}
use heplify.Publish.Hep.Encode.{Scratch}
use heplify.Publish.Hep.RoundTrip.{IsPacket}
use heplify.Publish.Protobuf.{Hep, Field, number, text, fields, size, hep_of, encode}
use heplify.Publish.Protobuf.Wire.{
  bytes_of, wire, FieldFits, wire-small, length-wire, hep_of-FieldFits, marshal-wire,
}
use heplify.Publish.Protobuf.Unmarshal.{
  is_negative, past_end, set_number, set_text, Read, read_all, first_missing, required, unmarshal,
}
use heplify.Publish.Protobuf.Slices.{drop-past, past_end-inside, inside}
use heplify.Publish.Protobuf.Fields.{read_round-field, IsKnown, received}

abbrev all_received : Read → List Field → Read
all_received r [] = r
all_received r (f ∷ fs) = all_received (received r f) fs

bytes_of-nonempty : (f : Field) → 0 < length (bytes_of f)
unfolding bytes_of
bytes_of-nonempty (number tag v) = omega arith
bytes_of-nonempty (text tag s) = omega arith

past_end-behind : (d : Bytes) (i : ℕ) → i ≡ length d → length d < 2 ^ 63 → past_end d i ≡ true
past_end-behind d i e small = ground arith

read_all-wire :
    (fuel i : ℕ) (r : Read) (d : Bytes) (fs : List Field)
    → length d < 2 ^ 63
    → i ≤ length d
    → drop i d ≡ wire fs
    → All FieldFits fs
    → All IsKnown fs
    → length (wire fs) < fuel
    → read_all fuel d i r ≡ ok (all_received r fs, length d)
unfolding read_all wire
read_all-wire zero i r d fs small within at fit known enough = absurd (omega arith)
read_all-wire (suc fuel) i r d [] small within at fit known enough =
    let whole : i ≡ length d = omega (arith, length-drop i d, ap length at) in
    rw (past_end-behind d i whole small) (ap (λ n. ok (r, n)) whole)
read_all-wire (suc fuel) i r d (f ∷ fs) small within at (fit_f, fit) (known_f, known) enough =
    let full = bytes_of-nonempty f in
    let size = length-append (bytes_of f) (wire fs) in
    let inner = inside d (bytes_of f) i (wire fs) at full in
    rw
      (
        past_end-inside d i (omega arith) small,
        read_round-field r d i f (wire fs) small at fit_f known_f,
      )
      (read_all-wire fuel (i + length (bytes_of f)) (received r f) d fs small inner
        (drop-past i d (bytes_of f) at) fit known (omega arith))

length-fields : (m : Hep) → length (fields m) ≡ 14
unfolding fields
length-fields m = refl

fields-IsKnown : (m : Hep) → All IsKnown (fields m)
unfolding fields
fields-IsKnown m = ground arith

required-fields :
    (m old : Hep) (d : Bytes)
    → length d < 2 ^ 63
    → required d (all_received (record { message = old; seen = [] }) (fields m)) (length d) ≡ ok m
unfolding required first_missing fields set_number set_text
required-fields m old d small =
    let shown : is_negative (length d) ≡ false = ground arith in
    rw (shown, le→ltb (length d) (length d) (omega arith)) refl

wire-fields-small : (m : Hep) → All FieldFits (fields m) → length (wire (fields m)) < 2 ^ 63
wire-fields-small m fit = omega (arith, wire-small (fields m) fit, length-fields m)

unmarshal-wire :
    (m old : Hep)
    → All FieldFits (fields m)
    → length (wire (fields m)) < 2 ^ 63
    → unmarshal (wire (fields m)) old ≡ ok m
unfolding unmarshal
unmarshal-wire m old fit small =
    let d = wire (fields m) in
    rw
      (read_all-wire (length d + 1) 0 (record { message = old; seen = [] }) d (fields m) small
        (omega arith) refl fit (fields-IsKnown m) (omega arith))
      (required-fields m old d small)

-- Where Protobuf is set, for a packet whose numbers fit their fields and whose texts are below 4 GiB:
-- `EncodeHEP` neither panics nor touches what the chunks are written through, the bytes are as many as
-- `Size` says, and `Unmarshal` of them, into whatever message, gives the message made of the packet.
pub unmarshal-encode :
    (ip_string : Option Bytes → Bytes) (s : Scratch) (h : Packet) (old : Hep)
    → IsPacket h
    → IsU16 h.vlan
    → length (ip_string h.src_ip) < 4294967296
    → length (ip_string h.dst_ip) < 4294967296
    → length (contents h.node_pw) < 4294967296
    → length (contents h.payload) < 4294967296
    → length (contents h.cid) < 4294967296
    → (b : Bytes) × (encode true ip_string s h ≡ ok (b, s))
      × (length b ≡ size (fields (hep_of ip_string h)))
      × (unmarshal b old ≡ ok (hep_of ip_string h))
unfolding encode
unmarshal-encode ip_string s h old p vlan src dst pw payload cid =
    let m = hep_of ip_string h in
    let fit = hep_of-FieldFits ip_string h p vlan src dst pw payload cid in
    (
      wire (fields m),
      rw (marshal-wire m fit) refl,
      length-wire (fields m) fit,
      unmarshal-wire m old fit (wire-fields-small m fit),
    )
