-- ===== src/Publish/Protobuf/Runs.antt =====
-- A packet through the Protobuf branch of `EncodeHEP`, at concrete fields.
use heplify.Common.{
  ◌+◌, [], ◌∷◌, ◌≡◌, ◌≢◌, refl, err, panic, stuck, Option, none, some, true, ok, length, arith,
}
use heplify.Common.Bytes.{Bytes}
use heplify.Publish.Hep.{Packet}
use heplify.Publish.Hep.Encode.{initial_scratch}
use heplify.Publish.Protobuf.{Hep, fields, sov_from, size_of, size, hep_of, encode}
use heplify.Publish.Protobuf.Unmarshal.{
  unmarshal, read_all, read_round, read_case, read_text, skip_field, skip_hep, skip_group,
  uint_from, required, first_missing, required_not_set,
}
use heplify.Publish.Protobuf.Total.{unmarshal-ne-stuck}
use heplify.Publish.Protobuf.RoundTrip.{unmarshal-encode}

-- `net.IP.String` of an address whose numbers have one digit, as below.
dotted : Bytes → Bytes
dotted [] = []
dotted (n ∷ []) = (48 + n) ∷ []
dotted (n ∷ m ∷ ns) = (48 + n) ∷ b'.' ∷ dotted (m ∷ ns)

abbrev ip_text : Option Bytes → Bytes
ip_text none = b'<' ∷ b'n' ∷ b'i' ∷ b'l' ∷ b'>' ∷ []
ip_text (some a) = dotted a

-- 1.0.0.1:5060 to 1.0.0.2:5060 over UDP, a payload of two bytes.
abbrev packet : Packet
packet = record {
  version = 2;
  protocol = 17;
  src_ip = some (1 ∷ 0 ∷ 0 ∷ 1 ∷ []);
  dst_ip = some (1 ∷ 0 ∷ 0 ∷ 2 ∷ []);
  src_port = 5060;
  dst_port = 5060;
  tsec = 1540000000;
  tmsec = 999999;
  proto_type = 1;
  node_id = 2002;
  node_pw = none;
  payload = some (b'O' ∷ b'K' ∷ []);
  cid = some (b'a' ∷ []);
  vlan = 7;
}

-- A message with other contents, into which it is read.
abbrev old : Hep
old = record (hep_of ip_text packet) { version = 10; payload = b'x' ∷ [] }

unmarshal-encode_example :
    (b : Bytes) × (encode true ip_text initial_scratch packet ≡ ok (b, initial_scratch))
    × (length b ≡ size (fields (hep_of ip_text packet)))
    × (unmarshal b old ≡ ok (hep_of ip_text packet))
unfolding dotted
unmarshal-encode_example =
    unmarshal-encode ip_text initial_scratch packet old (omega arith) (omega arith) (omega arith)
      (omega arith) (omega arith) (omega arith) (omega arith)

size-packet : size (fields (hep_of ip_text packet)) ≡ 54
unfolding dotted size fields hep_of size_of sov_from
size-packet = refl

-- The field 15 as a group that holds a number and a group, and that is not closed.
unmarshal-ne-stuck_example : unmarshal (123 ∷ 8 ∷ 1 ∷ 131 ∷ 1 ∷ 132 ∷ 1 ∷ []) old ≢ stuck
unmarshal-ne-stuck_example =
    unmarshal-ne-stuck (123 ∷ 8 ∷ 1 ∷ 131 ∷ 1 ∷ 132 ∷ 1 ∷ []) old (omega arith)

unmarshal-group : unmarshal (123 ∷ 8 ∷ 1 ∷ 124 ∷ []) old ≡ err (required_not_set 1)
unfolding unmarshal read_all read_round read_case skip_field skip_hep skip_group uint_from required
    first_missing
unmarshal-group = refl

-- A source address of 2^63 - 1 bytes: the index behind it is negative.
unmarshal-long_text :
    unmarshal (26 ∷ 255 ∷ 255 ∷ 255 ∷ 255 ∷ 255 ∷ 255 ∷ 255 ∷ 255 ∷ 127 ∷ []) old ≡ panic
unfolding unmarshal read_all read_round read_case read_text uint_from
unmarshal-long_text = refl
