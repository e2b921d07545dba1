-- ===== src/Publish/Hep/RoundTrip.antt =====
-- publish/marshal.go: `DecodeHEP` on a message made of chunks, and on what `EncodeHEP` writes.
use heplify.Common.{
  ℕ, Bool, ◌||◌, zero, suc, ◌+◌, ◌-◌, ◌*◌, ◌/◌, ◌%◌, ◌≤◌, ◌<◌, ◌≡◌, refl, sym, ap, ◌∙◌, List, [],
  ◌∷◌, ◌++◌, Option, none, some, length, drop, length-append, take-append, drop-append, drop-drop,
  ◌==◌, if◌then◌else◌, Bool-cases, ==_of_eq, ==_of_ne, lt→ltb, le→ltb, inl, inr, arith, All,
  Outcome, ok, err, panic, stuck, ◌>>=◌,
}
use heplify.Common.Bytes.{Bytes, put_uint16, uint16, uint32, IsU16, IsU32}
use heplify.Publish.Hep.{Packet, HepMsg, new_hep_msg, contents, hep_ver}
use heplify.Publish.Hep.Encode.{Scratch, encode_hep}
use heplify.Publish.Hep.Decode.{
  HepError, wrong_length, set_field, chunk_body, parse_chunk, parse_chunks, parse_hep, parse,
  decode_hep,
}
use heplify.Publish.Hep.Chunks.{
  Chunk, chunks, frame, frames, message, tail_chunks, cid_chunks, IsPair, encode_hep-message,
}

-- The switch, chunk after chunk.
unfoldable pub set_fields : List Chunk → HepMsg → Outcome HepError HepMsg
set_fields [] h = ok h
set_fields (c ∷ cs) h = set_field c.id c.body h >>= λ h'. set_fields cs h'

-- A chunk whose type and length fit the two numbers that carry them.
abbrev pub IsFramed : Chunk → Type 0
IsFramed c = (c.id < 256) × (6 + length c.body < 65536)

chunk_body-frame :
    (a b c d e f : ℕ) (body rest : Bytes)
    → chunk_body (a ∷ b ∷ c ∷ d ∷ e ∷ f ∷ (body ++ rest)) (6 + length body) ≡ ok body
unfolding chunk_body
chunk_body-frame a b c d e f body rest = rw (
  le→ltb (suc (suc (suc (suc (suc (suc (length (body ++ rest)))))))) (6 + length body)
      (omega (arith, length-append body rest)),
  le→ltb (6 + length body) 6 (omega arith),
  take-append (6 + length body - 6) body rest (omega arith),
)

-- One round of the loop reads one chunk, whatever follows it.
parse_chunk-frame :
    (spare : Bytes) (c : Chunk) (rest : Bytes) (h : HepMsg)
    → IsFramed c
    → parse_chunk spare (frame c.id c.body ++ rest) h
      ≡ (set_field c.id c.body h >>= λ h'. ok (h', 6 + length c.body))
unfolding parse_chunk uint16
parse_chunk-frame spare c rest h f =
    let n = length c.body in
    let small : (6 + n % 65536) % 65536 ≡ 6 + n = omega arith in
    let joined : (6 + n) / 256 % 256 * 256 + (6 + n) % 256 ≡ 6 + n = omega arith in
    let plain : 0 * 256 + c.id ≡ c.id = omega arith in
    rw (small, joined, plain) (rw (chunk_body-frame 0 0 0 c.id _ _ c.body rest))

bind_through :
    (o : Outcome HepError HepMsg) (n : ℕ) (f : HepMsg → ℕ → Outcome HepError HepMsg)
    (g : HepMsg → Outcome HepError HepMsg)
    → ((h : HepMsg) → f h n ≡ g h)
    → ((o >>= λ h'. ok (h', n)) >>= λ (h', m). f h' m) ≡ (o >>= g)
bind_through (ok h) n f g same = same h
bind_through (err e) n f g same = refl
bind_through panic n f g same = refl
bind_through stuck n f g same = refl

length-frame : (c : Chunk) → length (frame c.id c.body) ≡ 6 + length c.body
length-frame c = omega arith

-- The loop, from any chunk boundary on.
parse_chunks-frames :
    (cs : List Chunk) (fuel : ℕ) (spare packet : Bytes) (len current : ℕ) (h : HepMsg)
    → All IsFramed cs
    → drop current packet ≡ frames cs
    → current + length (frames cs) ≡ len
    → len < 65536
    → length (frames cs) < fuel
    → parse_chunks fuel spare packet len current h ≡ set_fields cs h
unfolding parse_chunks set_fields
parse_chunks-frames cs zero spare packet len current h fits at_cs sum small enough =
    absurd (omega arith)
parse_chunks-frames [] (suc fuel) spare packet len current h fits at_cs sum small enough =
    rw (le→ltb current len (omega arith))
parse_chunks-frames (c ∷ cs) (suc fuel) spare packet len current h (fit, fits) at_cs sum small
      enough =
    let size = length-append (frame c.id c.body) (frames cs) in
    let next : (current + (6 + length c.body)) % 65536 ≡ current + (6 + length c.body) =
      omega (arith, size) in
    let at_rest : drop (current + (6 + length c.body)) packet ≡ frames cs =
      sym (drop-drop (6 + length c.body) current packet)
      ∙ ap (drop (6 + length c.body)) at_cs
      ∙ drop-append (6 + length c.body) (frame c.id c.body) (frames cs) (sym (length-frame c)) in
    rw
      (lt→ltb current len (omega (arith, size)), at_cs, parse_chunk-frame spare c (frames cs) h fit)
      (bind_through (set_field c.id c.body h) (6 + length c.body)
        (λ h' n. parse_chunks fuel spare packet len ((current + n) % 65536) h') (set_fields cs)
        (λ h'. rw next (
          parse_chunks-frames cs fuel spare packet len (current + (6 + length c.body)) h' fits
            at_rest (omega (arith, size)) small (omega (arith, size)))))

-- `DecodeHEP` of a message made of chunks takes the fields from the chunks in order, and needs
-- no look at what the array holds behind the message.
decode_hep-message :
    (cs : List Chunk) (spare : Bytes)
    → All IsFramed cs
    → 6 + length (frames cs) < 65536
    → decode_hep spare (message cs) ≡ set_fields cs new_hep_msg
unfolding decode_hep parse parse_hep uint16
decode_hep-message cs spare fits small =
    let size = 6 + length (frames cs) in
    let whole : size % 65536 ≡ size = omega arith in
    let joined : size / 256 % 256 * 256 + size % 256 ≡ size = omega arith in
    rw (whole, joined, ==_of_eq size (length (message cs)) (omega arith))
      (parse_chunks-frames cs (suc size) spare (hep_ver ++ (put_uint16 size ++ frames cs)) size 6
        new_hep_msg fits refl refl small (omega arith))

-- The packet's numbers fit the fields that carry them.
pub record IsPacket (h : Packet) : Type 0 where
  pub version : h.version < 256
  pub protocol : h.protocol < 256
  pub src_port : IsU16 h.src_port
  pub dst_port : IsU16 h.dst_port
  pub tsec : IsU32 h.tsec
  pub tmsec : IsU32 h.tmsec
  pub proto_type : h.proto_type < 256
  pub node_id : IsU32 h.node_id

abbrev pub has_addresses : Packet → Bool
has_addresses h = h.version == 2 || h.version == 10

-- What comes back: an absent password or payload is read as an empty one, the addresses are sent
-- for the two IP versions only, and the VLAN is not sent.
abbrev pub received : Packet → HepMsg
received h = record {
  version = h.version;
  protocol = h.protocol;
  src_ip = if has_addresses h then some (contents h.src_ip) else none;
  dst_ip = if has_addresses h then some (contents h.dst_ip) else none;
  src_port = h.src_port;
  dst_port = h.dst_port;
  tsec = h.tsec;
  tmsec = h.tmsec;
  proto_type = h.proto_type;
  node_id = h.node_id;
  node_pw = some (contents h.node_pw);
  payload = some (contents h.payload);
  cid = h.cid;
  vlan = 0;
}

IsFramed-All :
    (cs : List Chunk) → All (λ c. c.id < 256) cs → length (frames cs) < 65536 → All IsFramed cs
IsFramed-All [] ids small = tt
IsFramed-All (c ∷ cs) (id, ids) small =
    let size = length-append (frame c.id c.body) (frames cs) in
    ((id, omega (arith, size)), IsFramed-All cs ids (omega (arith, size)))

cid-ids : (cid : Option Bytes) → All (λ c. c.id < 256) (cid_chunks cid)
cid-ids none = tt
cid-ids (some cid) = omega arith

tail-ids : (h : Packet) → All (λ c. c.id < 256) (tail_chunks h)
tail-ids h = search (cid-ids h.cid, arith) depth 12

chunks-ids : (h : Packet) → All (λ c. c.id < 256) (chunks h)
unfolding chunks
chunks-ids h = elim (Bool-cases (h.version == 2)) [
  | inl v4 ↦ rw v4 (search (tail-ids h, arith) depth 8)
  | inr other ↦ elim (Bool-cases (h.version == 10)) [
    | inl v6 ↦ rw (other, v6) (search (tail-ids h, arith) depth 8)
    | inr none_of ↦ rw (other, none_of) (search (tail-ids h, arith) depth 8)
  ]
]

join16 : (v : ℕ) → IsU16 v → v / 256 % 256 * 256 + v % 256 ≡ v
join16 v h = omega arith

join32 :
    (v : ℕ)
    → IsU32 v
    → v / 16777216 % 256 * 16777216 + v / 65536 % 256 * 65536 + v / 256 % 256 * 256 + v % 256 ≡ v
join32 v h = omega arith

set_fields-cid :
    (cid : Option Bytes) (m : HepMsg)
    → m.cid ≡ none
    → set_fields (cid_chunks cid) m ≡ ok (record m { cid = cid })
unfolding set_fields set_field
set_fields-cid none m e = rw (← e)
set_fields-cid (some cid) m e = refl

set_fields-tail :
    (h : Packet) (m : HepMsg)
    → IsPacket h
    → m.cid ≡ none
    → set_fields (tail_chunks h) m
      ≡ ok (record m {
        src_port = h.src_port;
        dst_port = h.dst_port;
        tsec = h.tsec;
        tmsec = h.tmsec;
        proto_type = h.proto_type;
        node_id = h.node_id;
        node_pw = some (contents h.node_pw);
        payload = some (contents h.payload);
        cid = h.cid;
      })
unfolding set_fields set_field uint16 uint32
set_fields-tail h m p e =
    rw
      (
        join16 h.src_port p.src_port,
        join16 h.dst_port p.dst_port,
        join32 h.tsec p.tsec,
        join32 h.tmsec p.tmsec,
        join32 h.node_id p.node_id,
      )
      (set_fields-cid h.cid _ e)

abbrev addressed : Packet → Option Bytes → Option Bytes → HepMsg
addressed h src dst = record new_hep_msg {
  version = h.version;
  protocol = h.protocol;
  src_ip = src;
  dst_ip = dst;
}

set_fields-chunks : (h : Packet) → IsPacket h → set_fields (chunks h) new_hep_msg ≡ ok (received h)
unfolding chunks set_fields set_field uint16 uint32
set_fields-chunks h p = elim (Bool-cases (h.version == 2)) [
  | inl v4 ↦
      rw v4 (
        set_fields-tail h (addressed h (some (contents h.src_ip)) (some (contents h.dst_ip))) p
          refl)
  | inr other ↦ elim (Bool-cases (h.version == 10)) [
    | inl v6 ↦
        rw (other, v6)
          (set_fields-tail h (addressed h (some (contents h.src_ip)) (some (contents h.dst_ip))) p
            refl)
    | inr none_of ↦ rw (other, none_of) (set_fields-tail h (addressed h none none) p refl)
  ]
]

-- `DecodeHEP` reads back what `EncodeHEP` wrote: every field of a packet whose message stays
-- below 64 KiB, whatever the earlier calls left in the scratch space.
pub decode_hep-encode_hep :
    (s : Scratch) (h : Packet) (spare : Bytes)
    → IsPair s.hep_len
    → IsPacket h
    → 6 + length (frames (chunks h)) < 65536
    → decode_hep spare (encode_hep s h).0 ≡ ok (received h)
decode_hep-encode_hep s h spare two p small = rw (encode_hep-message s h two) (
    decode_hep-message (chunks h) spare (IsFramed-All _ (chunks-ids h) (omega arith)) small
    ∙ set_fields-chunks h p)

-- A message of 64 KiB or more does not come back: the length field wraps, and `DecodeHEP`
-- refuses the message for it.
pub decode_hep-encode_hep_large :
    (s : Scratch) (h : Packet) (spare : Bytes)
    → IsPair s.hep_len
    → 65536 ≤ 6 + length (frames (chunks h))
    → decode_hep spare (encode_hep s h).0
      ≡ err
          (wrong_length (6 + length (frames (chunks h))) ((6 + length (frames (chunks h))) % 65536))
unfolding decode_hep parse parse_hep uint16
decode_hep-encode_hep_large s h spare two large =
    let size = 6 + length (frames (chunks h)) in
    let joined : size % 65536 / 256 % 256 * 256 + size % 65536 % 256 ≡ size % 65536 = omega arith in
    rw
      (
        encode_hep-message s h two,
        joined,
        ==_of_ne (size % 65536) (length (message (chunks h))) (omega arith),
      )
      (ap (λ n. err (wrong_length n (size % 65536))) {y = size} (omega arith))
