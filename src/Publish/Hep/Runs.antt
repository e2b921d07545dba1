-- ===== src/Publish/Hep/Runs.antt =====
-- publish/marshal.go: concrete runs, and the theorems at concrete inputs.
use heplify.Common.{
  ℕ, zero, suc, ◌+◌, ◌%◌, ◌≡◌, ◌≢◌, refl, [], ◌∷◌, none, some, length, length-append, arith, ok,
  err, stuck,
}
use heplify.Common.Bytes.{Bytes}
use heplify.Publish.Hep.{Packet}
use heplify.Publish.Hep.Encode.{initial_scratch, encode_hep}
use heplify.Publish.Hep.Decode.{wrong_length, decode_hep}
use heplify.Publish.Hep.Chunks.{chunks, frames}
use heplify.Publish.Hep.RoundTrip.{received, decode_hep-encode_hep, decode_hep-encode_hep_large}
use heplify.Publish.Hep.Total.{decode_hep-ne-stuck}

abbrev sip_packet : Packet
sip_packet = record {
  version = 2;
  protocol = 17;
  src_ip = some (192 ∷ 168 ∷ 247 ∷ 250 ∷ []);
  dst_ip = some (192 ∷ 168 ∷ 245 ∷ 250 ∷ []);
  src_port = 5060;
  dst_port = 5060;
  tsec = 1500000000;
  tmsec = 999999;
  proto_type = 1;
  node_id = 2002;
  node_pw = some (b'm' ∷ b'y' ∷ b'h' ∷ b'e' ∷ b'p' ∷ []);
  payload = some (b'S' ∷ b'I' ∷ b'P' ∷ []);
  cid = none;
  vlan = 7;
}

decode_hep-encode_hep_example :
    decode_hep [] (encode_hep initial_scratch sip_packet).0 ≡ ok (received sip_packet)
unfolding chunks
decode_hep-encode_hep_example =
    decode_hep-encode_hep initial_scratch sip_packet [] refl (omega arith) (omega arith)

zeros : ℕ → Bytes
zeros zero = []
zeros (suc n) = 0 ∷ zeros n

length-zeros : (n : ℕ) → length (zeros n) ≡ n
unfolding zeros
length-zeros zero = refl
length-zeros (suc n) = omega (arith, length-zeros n)

abbrev big_packet : Packet
big_packet = record sip_packet { payload = some (zeros 65536) }

decode_hep-encode_hep_large_example :
    decode_hep [] (encode_hep initial_scratch big_packet).0
    ≡ err (
        wrong_length
          (6 + length (frames (chunks big_packet)))
          ((6 + length (frames (chunks big_packet))) % 65536))
unfolding chunks
decode_hep-encode_hep_large_example =
    decode_hep-encode_hep_large initial_scratch big_packet [] refl
      (omega (arith, length-zeros 65536, length-append (zeros 65536) []))

decode_hep-ne-stuck_example : decode_hep (7 ∷ []) (0x48 ∷ 1 ∷ 1 ∷ 0x33 ∷ 0 ∷ 5 ∷ []) ≢ stuck
decode_hep-ne-stuck_example =
    decode_hep-ne-stuck (7 ∷ []) (0x48 ∷ 1 ∷ 1 ∷ 0x33 ∷ 0 ∷ 5 ∷ []) (omega arith)
