-- ===== src/Publish/Hep/Encode.antt =====
-- publish/marshal.go: `makeHEPChuncks` and the chunk branch of `EncodeHEP`. The package variables
-- `hepLen`, `chunck16` and `chunck32` are scratch space that every call writes into, so the
-- model passes them on from call to call.
use heplify.Common.{
  ℕ, ◌+◌, ◌/◌, ◌%◌, [], ◌∷◌, ◌++◌, Option, none, some, length, set, ◌==◌, if◌then◌else◌,
}
use heplify.Common.Bytes.{Bytes, put_uint16, put_uint32}
use heplify.Publish.Hep.{Packet, contents, hep_ver}

-- The package variables.
pub record Scratch : Type 0 where
  pub hep_len : Bytes
  pub chunck16 : Bytes
  pub chunck32 : Bytes

-- The buffer `b`, and the scratch space beside it.
pub record Buffer : Type 0 where
  pub out : Bytes
  pub scratch : Scratch

abbrev pub initial_scratch : Scratch
initial_scratch = record {
  hep_len = 0 ∷ 0 ∷ [];
  chunck16 = 0 ∷ 0 ∷ [];
  chunck32 = 0 ∷ 0 ∷ 0 ∷ 0 ∷ [];
}

-- `b.Write`
abbrev write : Bytes → Buffer → Buffer
write p b = record b { out = b.out ++ p }

-- The id of a chunk, its fixed length `hepLen7`, and one byte.
unfoldable pub write_byte_chunk : ℕ → ℕ → Buffer → Buffer
write_byte_chunk id v b =
    write (v ∷ []) (write (0x00 ∷ 0x07 ∷ []) (write (0x00 ∷ 0x00 ∷ 0x00 ∷ id ∷ []) b))

-- `hepLen8`, and a number that goes through `chunck16`.
unfoldable pub write_uint16_chunk : ℕ → ℕ → Buffer → Buffer
write_uint16_chunk id v b =
    let b1 = write (0x00 ∷ 0x08 ∷ []) (write (0x00 ∷ 0x00 ∷ 0x00 ∷ id ∷ []) b) in
    let b2 = record b1 { scratch = record (b1.scratch) { chunck16 = put_uint16 v } } in
    write b2.scratch.chunck16 b2

-- `hepLen10`, and a number that goes through `chunck32`.
unfoldable pub write_uint32_chunk : ℕ → ℕ → Buffer → Buffer
write_uint32_chunk id v b =
    let b1 = write (0x00 ∷ 0x0a ∷ []) (write (0x00 ∷ 0x00 ∷ 0x00 ∷ id ∷ []) b) in
    let b2 = record b1 { scratch = record (b1.scratch) { chunck32 = put_uint32 v } } in
    write b2.scratch.chunck32 b2

-- `6+uint16(len(body))`, computed in 16 bits.
abbrev pub chunk_length : Bytes → ℕ
chunk_length body = (6 + length body % 65536) % 65536

-- A length that goes through `hepLen`, and a slice.
unfoldable pub write_bytes_chunk : ℕ → Option Bytes → Buffer → Buffer
write_bytes_chunk id body b =
    let b1 = write (0x00 ∷ 0x00 ∷ 0x00 ∷ id ∷ []) b in
    let b2 = record b1 {
      scratch = record (b1.scratch) { hep_len = put_uint16 (chunk_length (contents body)) };
    } in
    write (contents body) (write b2.scratch.hep_len b2)

unfoldable pub write_addresses : Packet → Buffer → Buffer
write_addresses h b =
    if h.version == 0x02
    then write_bytes_chunk 4 h.dst_ip (write_bytes_chunk 3 h.src_ip b)
    else if h.version == 0x0a
    then write_bytes_chunk 6 h.dst_ip (write_bytes_chunk 5 h.src_ip b)
    else b

unfoldable pub write_cid : Option Bytes → Buffer → Buffer
write_cid none b = b
write_cid (some cid) b = write_bytes_chunk 17 (some cid) b

unfoldable pub make_hep_chuncks : Scratch → Packet → Buffer
make_hep_chuncks s h =
    let b0 = write s.hep_len (write hep_ver (record { out = []; scratch = s })) in
    let b1 = write_byte_chunk 2 h.protocol (write_byte_chunk 1 h.version b0) in
    let b2 = write_addresses h b1 in
    let b3 = write_uint16_chunk 8 h.dst_port (write_uint16_chunk 7 h.src_port b2) in
    let b4 = write_uint32_chunk 10 h.tmsec (write_uint32_chunk 9 h.tsec b3) in
    let b5 = write_uint32_chunk 12 h.node_id (write_byte_chunk 11 h.proto_type b4) in
    let b6 = write_bytes_chunk 15 h.payload (write_bytes_chunk 14 h.node_pw b5) in
    write_cid h.cid b6

-- `binary.BigEndian.PutUint16(hepMsg[4:6], v)`
abbrev pub put_uint16_at_4 : ℕ → Bytes → Bytes
put_uint16_at_4 v m = set (set m 4 (v / 256 % 256)) 5 (v % 256)

-- `EncodeHEP` when `config.Cfg.Protobuf` is false: the message, and the scratch space left behind.
unfoldable pub encode_hep : Scratch → Packet → Bytes × Scratch
encode_hep s h =
    let b = make_hep_chuncks s h in (put_uint16_at_4 (length b.out % 65536) b.out, b.scratch)
