-- ===== src/Publish/Protobuf/Wire.antt =====
-- publish/hep.pb.go: what `Marshal` writes: the fields one after the other.
use heplify.Common.{
  ℕ, ◌+◌, ◌-◌, ◌≤◌, ◌<◌, ◌≡◌, refl, sym, ap, ◌∙◌, List, [], ◌∷◌, ◌++◌, append_assoc, append-nil,
  length-append, take-all, Option, length, All, ok, ◌*◌, arith,
}
use heplify.Common.Bytes.{Bytes, IsU16}
use heplify.Publish.Hep.{Packet, contents}
use heplify.Publish.Hep.RoundTrip.{IsPacket}
use heplify.Publish.Protobuf.Varint.{
  varint, length-varint, Within-uint32, put-ok, encode_varint-ok, sov-varint,
}
use heplify.Publish.Protobuf.{
  Hep, Field, number, text, fields, size_of, size, copy, write_field, write_fields, marshal, hep_of,
}

unfoldable pub bytes_of : Field → Bytes
bytes_of (number tag v) = tag ∷ varint 10 v
bytes_of (text tag s) = tag ∷ (varint 10 (length s) ++ s)

unfoldable pub wire : List Field → Bytes
wire [] = []
wire (f ∷ fs) = bytes_of f ++ wire fs

-- The number of a field, or the length of its string, has 32 bits.
abbrev pub FieldFits : Field → Type 0
FieldFits (number tag v) = v < 4294967296
FieldFits (text tag s) = length s < 4294967296

size_of-bytes_of : (f : Field) → FieldFits f → size_of f ≡ length (bytes_of f)
unfolding size_of bytes_of
size_of-bytes_of (number tag v) fit = omega (arith, sov-varint 10 v (Within-uint32 v fit))
size_of-bytes_of (text tag s) fit = omega (
  arith,
  length-append (varint 10 (length s)) s,
  sov-varint 10 (length s) (Within-uint32 (length s) fit),
)

write_field-ok :
    (room : ℕ) (f : Field) (out : Bytes)
    → FieldFits f
    → length out + length (bytes_of f) ≤ room
    → write_field room f out ≡ ok (out ++ bytes_of f)
unfolding write_field bytes_of copy
write_field-ok room (number tag v) out fit fits =
    let grown = length-append out (tag ∷ []) in
    rw (put-ok room tag out (omega arith)) (
      encode_varint-ok 10 room v (out ++ tag ∷ []) (Within-uint32 v fit) (omega (arith, grown))
      ∙ ap ok (append_assoc out (tag ∷ []) (varint 10 v)))
write_field-ok room (text tag s) out fit fits =
    let v = varint 10 (length s) in
    let out1 = out ++ tag ∷ [] in
    let out2 = out1 ++ v in
    let grown1 = length-append out (tag ∷ []) in
    let grown2 = length-append out1 v in
    let whole = length-append v s in
    rw
      (
        put-ok room tag out (omega arith),
        encode_varint-ok 10 room (length s) out1 (Within-uint32 (length s) fit)
            (omega (arith, grown1, whole)),
        take-all (room - length out2) s (omega (arith, grown1, grown2, whole)),
      )
      (ap ok (append_assoc out1 v s ∙ append_assoc out (tag ∷ []) (v ++ s)))

write_fields-ok :
    (room : ℕ) (fs : List Field) (out : Bytes)
    → All FieldFits fs
    → length out + size fs ≤ room
    → write_fields room fs out ≡ ok (out ++ wire fs)
unfolding write_fields size wire
write_fields-ok room [] out fit fits = ap ok (sym (append-nil out))
write_fields-ok room (f ∷ fs) out (here, fit) fits =
    let grown = length-append out (bytes_of f) in
    let sized = size_of-bytes_of f here in
    rw (write_field-ok room f out here (omega arith)) (
      write_fields-ok room fs (out ++ bytes_of f) fit (omega (arith, grown))
      ∙ ap ok (append_assoc out (bytes_of f) (wire fs)))

pub length-wire : (fs : List Field) → All FieldFits fs → length (wire fs) ≡ size fs
unfolding wire size
length-wire [] fit = refl
length-wire (f ∷ fs) (here, fit) =
    omega (arith, length-append (bytes_of f) (wire fs), size_of-bytes_of f here, length-wire fs fit)

-- What `Marshal` returns is as long as `Size` says.
pub marshal-wire : (m : Hep) → All FieldFits (fields m) → marshal m ≡ ok (wire (fields m))
unfolding marshal
marshal-wire m fit = write_fields-ok (size (fields m)) (fields m) [] fit (omega arith)

bytes_of-small : (f : Field) → FieldFits f → length (bytes_of f) ≤ 4294967307
unfolding bytes_of
bytes_of-small (number tag v) fit = omega (arith, length-varint 10 v)
bytes_of-small (text tag s) fit =
    omega (arith, length-varint 10 (length s), length-append (varint 10 (length s)) s)

pub wire-small : (fs : List Field) → All FieldFits fs → length (wire fs) ≤ length fs * 4294967307
unfolding wire
wire-small [] fit = omega arith
wire-small (f ∷ fs) (here, fit) =
    omega (arith, length-append (bytes_of f) (wire fs), bytes_of-small f here, wire-small fs fit)

pub hep_of-FieldFits :
    (ip_string : Option Bytes → Bytes) (h : Packet)
    → IsPacket h
    → IsU16 h.vlan
    → length (ip_string h.src_ip) < 4294967296
    → length (ip_string h.dst_ip) < 4294967296
    → length (contents h.node_pw) < 4294967296
    → length (contents h.payload) < 4294967296
    → length (contents h.cid) < 4294967296
    → All FieldFits (fields (hep_of ip_string h))
unfolding fields hep_of
hep_of-FieldFits ip_string h p vlan src dst pw payload cid =
    let version = p.version in
    let protocol = p.protocol in
    let src_port = p.src_port in
    let dst_port = p.dst_port in
    let tsec = p.tsec in
    let tmsec = p.tmsec in let proto_type = p.proto_type in let node_id = p.node_id in omega arith
