-- ===== src/Publish/Protobuf.antt =====
-- publish/hep.pb.go: `Size` and `Marshal` of the message HEP, and the Protobuf branch of `EncodeHEP` in
-- publish/marshal.go.
pub mod Varint
pub mod Unmarshal
pub mod Wire
pub mod Slices
pub mod Fields
pub mod RoundTrip
pub mod Total
mod Runs
use heplify.Common.{
  ℕ, zero, suc, ◌+◌, ◌-◌, ◌*◌, ◌/◌, ◌%◌, Bool, List, [], ◌∷◌, ◌++◌, Option, length, take, ltb, leb,
  ◌==◌, if◌then◌else◌, Outcome, ok, err, panic, stuck, ◌>>=◌,
}
use heplify.Common.Bytes.{Bytes}
use heplify.Publish.Hep.{Packet, contents}
use heplify.Publish.Hep.Encode.{Scratch, encode_hep}

-- `HEP`; the strings are their bytes.
pub record Hep : Type 0 where
  pub version : ℕ
  pub protocol : ℕ
  pub src_ip : Bytes
  pub dst_ip : Bytes
  pub src_port : ℕ
  pub dst_port : ℕ
  pub tsec : ℕ
  pub tmsec : ℕ
  pub proto_type : ℕ
  pub node_id : ℕ
  pub node_pw : Bytes
  pub payload : Bytes
  pub cid : Bytes
  pub vlan : ℕ

-- What `MarshalTo` writes for a field: its tag, and a number, or the length of a string and the string.
pub data Field : Type 0 where
  number : ℕ → ℕ → Field
  text : ℕ → Bytes → Field

unfoldable pub fields : Hep → List Field
fields m =
    number 0x8 m.version
    ∷ number 0x10 m.protocol
    ∷ text 0x1a m.src_ip
    ∷ text 0x22 m.dst_ip
    ∷ number 0x28 m.src_port
    ∷ number 0x30 m.dst_port
    ∷ number 0x38 m.tsec
    ∷ number 0x40 m.tmsec
    ∷ number 0x48 m.proto_type
    ∷ number 0x50 m.node_id
    ∷ text 0x5a m.node_pw
    ∷ text 0x62 m.payload
    ∷ text 0x6a m.cid
    ∷ number 0x70 m.vlan
    ∷ []

-- `sovHep`. A uint64 takes ten rounds at most, here and in `encodeVarintHep`.
unfoldable pub sov_from : ℕ → ℕ → ℕ
sov_from zero x = 0
sov_from (suc fuel) x = let more = suc (sov_from fuel (x / 128)) in if x / 128 == 0 then 1 else more

abbrev pub sov : ℕ → ℕ
sov x = sov_from 10 x

unfoldable pub size_of : Field → ℕ
size_of (number tag v) = 1 + sov v
size_of (text tag s) = 1 + length s + sov (length s)

-- `Size`
unfoldable pub size : List Field → ℕ
size [] = 0
size (f ∷ fs) = size_of f + size fs

-- `dAtA[i] = b; i++`, where the bytes up to i have been written: past the end it panics.
unfoldable pub put : ℕ → ℕ → Bytes → Outcome ⊥ Bytes
put room b out = if ltb (length out) room then ok (out ++ b ∷ []) else panic

-- `encodeVarintHep`
unfoldable pub encode_varint : ℕ → ℕ → ℕ → Bytes → Outcome ⊥ Bytes
unfolding put
encode_varint zero room v out = stuck
encode_varint (suc fuel) room v out =
    let more = put room (v % 128 + 128) out >>= encode_varint fuel room (v / 128) in
    if leb 128 v then more else put room (v % 256) out

-- `i += copy(dAtA[i:], s)`
unfoldable pub copy : ℕ → Bytes → Bytes → Bytes
copy room s out = out ++ take (room - length out) s

unfoldable pub write_field : ℕ → Field → Bytes → Outcome ⊥ Bytes
write_field room (number tag v) out = put room tag out >>= encode_varint 10 room v
write_field room (text tag s) out =
    put room tag out >>= encode_varint 10 room (length s) >>= λ written. ok (copy room s written)

-- `MarshalTo`
unfoldable pub write_fields : ℕ → List Field → Bytes → Outcome ⊥ Bytes
write_fields room [] out = ok out
write_fields room (f ∷ fs) out = write_field room f out >>= write_fields room fs

-- `Marshal`: a slice of the size of the message, of which the bytes written are returned.
unfoldable pub marshal : Hep → Outcome ⊥ Bytes
unfolding fields size write_fields
marshal m = write_fields (size (fields m)) (fields m) []

-- The message that `EncodeHEP` makes of a packet; `ip_string` is `net.IP.String`.
unfoldable pub hep_of : (Option Bytes → Bytes) → Packet → Hep
hep_of ip_string h = record {
  version = h.version;
  protocol = h.protocol;
  src_ip = ip_string h.src_ip;
  dst_ip = ip_string h.dst_ip;
  src_port = h.src_port;
  dst_port = h.dst_port;
  tsec = h.tsec;
  tmsec = h.tmsec;
  proto_type = h.proto_type;
  node_id = h.node_id;
  node_pw = contents h.node_pw;
  payload = contents h.payload;
  cid = contents h.cid;
  vlan = h.vlan;
}

-- `EncodeHEP`; the scratch space is for the chunks.
unfoldable pub encode :
    Bool → (Option Bytes → Bytes) → Scratch → Packet → Outcome ⊥ (Bytes × Scratch)
unfolding marshal hep_of
encode protobuf ip_string s h =
    let written = marshal (hep_of ip_string h) >>= λ m. ok (m, s) in
    if protobuf then written else ok (encode_hep s h)
