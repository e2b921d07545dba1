-- ===== src/Publish/Hep/Chunks.antt =====
-- publish/marshal.go: a HEP3 message as a list of chunks, apart from buffers and offsets, and
-- the proof that `EncodeHEP` writes that list.
use heplify.Common.{
  ℕ, ◌+◌, ◌%◌, ◌≡◌, refl, sym, ap, ◌∙◌, List, [], ◌∷◌, ◌++◌, Option, none, some, length,
  length-append, append_assoc, append-nil, ◌==◌, if◌then◌else◌, Bool-cases, inl, inr, arith,
}
use heplify.Common.Bytes.{Bytes, put_uint16, put_uint32}
use heplify.Publish.Hep.{Packet, contents, hep_ver}
use heplify.Publish.Hep.Encode.{
  Scratch, Buffer, write_byte_chunk, write_uint16_chunk, write_uint32_chunk, write_bytes_chunk,
  chunk_length, write_addresses, write_cid, make_hep_chuncks, put_uint16_at_4, encode_hep,
}

-- One chunk: vendor 0, the type, the length and the body.
abbrev pub frame : ℕ → Bytes → Bytes
frame id body = 0 ∷ 0 ∷ 0 ∷ id ∷ (put_uint16 (chunk_length body) ++ body)

pub record Chunk : Type 0 where
  pub id : ℕ
  pub body : Bytes

abbrev pub frames : List Chunk → Bytes
frames [] = []
frames (c ∷ cs) = frame c.id c.body ++ frames cs

abbrev pub chunk : ℕ → Bytes → Chunk
chunk id body = record { id = id; body = body }

abbrev pub address_chunks : Packet → List Chunk
address_chunks h =
    if h.version == 2
    then chunk 3 (contents h.src_ip) ∷ chunk 4 (contents h.dst_ip) ∷ []
    else if h.version == 10
    then chunk 5 (contents h.src_ip) ∷ chunk 6 (contents h.dst_ip) ∷ []
    else []

abbrev pub cid_chunks : Option Bytes → List Chunk
cid_chunks none = []
cid_chunks (some cid) = chunk 17 cid ∷ []

-- What a message says, chunk by chunk.
abbrev pub tail_chunks : Packet → List Chunk
tail_chunks h =
    chunk 7 (put_uint16 h.src_port)
    ∷ chunk 8 (put_uint16 h.dst_port)
    ∷ chunk 9 (put_uint32 h.tsec)
    ∷ chunk 10 (put_uint32 h.tmsec)
    ∷ chunk 11 (h.proto_type ∷ [])
    ∷ chunk 12 (put_uint32 h.node_id)
    ∷ chunk 14 (contents h.node_pw)
    ∷ chunk 15 (contents h.payload)
    ∷ cid_chunks h.cid

unfoldable pub chunks : Packet → List Chunk
chunks h =
    chunk 1 (h.version ∷ []) ∷ chunk 2 (h.protocol ∷ []) ∷ (address_chunks h ++ tail_chunks h)

pub frames-append : (cs ds : List Chunk) → frames (cs ++ ds) ≡ frames cs ++ frames ds
frames-append [] ds = refl
frames-append (c ∷ cs) ds = rw (frames-append cs ds, append_assoc)

write_byte_chunk-out :
    (id v : ℕ) (b : Buffer) → (write_byte_chunk id v b).out ≡ b.out ++ frame id (v ∷ [])
unfolding write_byte_chunk
write_byte_chunk-out id v b = simp append_assoc

write_uint16_chunk-out :
    (id v : ℕ) (b : Buffer) → (write_uint16_chunk id v b).out ≡ b.out ++ frame id (put_uint16 v)
unfolding write_uint16_chunk
write_uint16_chunk-out id v b = simp append_assoc

write_uint32_chunk-out :
    (id v : ℕ) (b : Buffer) → (write_uint32_chunk id v b).out ≡ b.out ++ frame id (put_uint32 v)
unfolding write_uint32_chunk
write_uint32_chunk-out id v b = simp append_assoc

write_bytes_chunk-out :
    (id : ℕ) (body : Option Bytes) (b : Buffer)
    → (write_bytes_chunk id body b).out ≡ b.out ++ frame id (contents body)
unfolding write_bytes_chunk
write_bytes_chunk-out id body b = simp append_assoc

ruleset written = (
  write_byte_chunk-out, write_uint16_chunk-out, write_uint32_chunk-out, write_bytes_chunk-out,
  append_assoc, append-nil,
)

write_addresses-out :
    (h : Packet) (b : Buffer) → (write_addresses h b).out ≡ b.out ++ frames (address_chunks h)
unfolding write_addresses
write_addresses-out h b = elim (Bool-cases (h.version == 2)) [
  | inl v4 ↦ rw v4 (simp written)
  | inr other ↦ elim (Bool-cases (h.version == 10)) [
    | inl v6 ↦ rw (other, v6) (simp written)
    | inr none_of ↦ rw (other, none_of) (sym (append-nil b.out))
  ]
]

write_cid-out :
    (cid : Option Bytes) (b : Buffer) → (write_cid cid b).out ≡ b.out ++ frames (cid_chunks cid)
unfolding write_cid
write_cid-out none b = sym (append-nil b.out)
write_cid-out (some cid) b = simp written

make_hep_chuncks-out :
    (s : Scratch) (h : Packet)
    → (make_hep_chuncks s h).out ≡ hep_ver ++ (s.hep_len ++ frames (chunks h))
unfolding make_hep_chuncks chunks
make_hep_chuncks-out s h = simp (written, write_cid-out, write_addresses-out, frames-append)

-- The whole message: the mark, the length of the whole, the chunks.
abbrev pub message : List Chunk → Bytes
message cs = hep_ver ++ (put_uint16 ((6 + length (frames cs)) % 65536) ++ frames cs)

abbrev pub IsPair : Bytes → Type 0
IsPair b = length b ≡ 2

put_header :
    (len rest : Bytes) (v : ℕ)
    → IsPair len
    → put_uint16_at_4 v (hep_ver ++ (len ++ rest)) ≡ hep_ver ++ (put_uint16 v ++ rest)
put_header [] rest v h = absurd (omega arith)
put_header (a ∷ []) rest v h = absurd (omega arith)
put_header (a ∷ b ∷ []) rest v h = refl
put_header (a ∷ b ∷ c ∷ l) rest v h = absurd (omega arith)

-- `EncodeHEP` writes the chunks of the packet behind a header, whatever the last call left in
-- the scratch space.
pub encode_hep-message :
    (s : Scratch) (h : Packet) → IsPair s.hep_len → (encode_hep s h).0 ≡ message (chunks h)
unfolding encode_hep
encode_hep-message s h two = rw (make_hep_chuncks-out s h) (
    put_header s.hep_len (frames (chunks h)) _ two
    ∙ ap (λ n. hep_ver ++ (put_uint16 (n % 65536) ++ frames (chunks h)))
        {y = 6 + length (frames (chunks h))}
        (omega (arith, length-append s.hep_len (frames (chunks h)))))
