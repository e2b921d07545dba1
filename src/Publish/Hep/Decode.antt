-- ===== src/Publish/Hep/Decode.antt =====
-- publish/marshal.go: `DecodeHEP`, `parse` and `parseHep`. Go bounds a slice expression by the
-- capacity, so what the backing array holds behind the packet is an argument, `spare`.
use heplify.Common.{
  ℕ, zero, suc, ◌+◌, ◌-◌, ◌%◌, ◌++◌, Option, none, some, length, take, drop, get_elem?, ltb, ◌==◌,
  if◌then◌else◌, Outcome, ok, err, panic, stuck, ◌>>=◌,
}
use heplify.Common.Bytes.{Bytes, uint16, uint32}
use heplify.Publish.Hep.{HepMsg, new_hep_msg}

pub data HepError : Type 0 where
  not_hep3 : HepError
  wrong_length : ℕ → ℕ → HepError
  chunk_overflow : ℕ → ℕ → HepError

-- An index or a slice out of range panics.
abbrev pub checked {ℓ} : {A : Type ℓ} → Option A → Outcome HepError A
checked none = panic
checked (some a) = ok a

abbrev set_src_ip : Bytes → HepMsg → HepMsg
set_src_ip body h = record h { src_ip = some body }

abbrev set_dst_ip : Bytes → HepMsg → HepMsg
set_dst_ip body h = record h { dst_ip = some body }

-- The switch on the chunk's type.
unfoldable pub set_field : ℕ → Bytes → HepMsg → Outcome HepError HepMsg
set_field t body h =
    if t == 1
    then (checked (get_elem? body 0) >>= λ v. ok (record h { version = v }))
    else if t == 2
    then (checked (get_elem? body 0) >>= λ v. ok (record h { protocol = v }))
    else if t == 3
    then ok (set_src_ip body h)
    else if t == 4
    then ok (set_dst_ip body h)
    else if t == 5
    then ok (set_src_ip body h)
    else if t == 6
    then ok (set_dst_ip body h)
    else if t == 7
    then (checked (uint16 body) >>= λ v. ok (record h { src_port = v }))
    else if t == 8
    then (checked (uint16 body) >>= λ v. ok (record h { dst_port = v }))
    else if t == 9
    then (checked (uint32 body) >>= λ v. ok (record h { tsec = v }))
    else if t == 10
    then (checked (uint32 body) >>= λ v. ok (record h { tmsec = v }))
    else if t == 11
    then (checked (get_elem? body 0) >>= λ v. ok (record h { proto_type = v }))
    else if t == 12
    then (checked (uint32 body) >>= λ v. ok (record h { node_id = v }))
    else if t == 14
    then ok (record h { node_pw = some body })
    else if t == 15
    then ok (record h { payload = some body })
    else if t == 17
    then ok (record h { cid = some body })
    else if t == 18
    then (checked (uint16 body) >>= λ v. ok (record h { vlan = v }))
    else ok h

-- `chunkBody := hepChunk[6:chunkLength]`, which panics if the length is below 6.
unfoldable pub chunk_body : Bytes → ℕ → Outcome HepError Bytes
chunk_body chunk n =
    if ltb (length chunk) n
    then err (chunk_overflow n (length chunk))
    else if ltb n 6
    then panic
    else ok (take (n - 6) (drop 6 chunk))

-- One round of the loop on `hepChunk`: the message after it, and the chunk's length.
unfoldable pub parse_chunk : Bytes → Bytes → HepMsg → Outcome HepError (HepMsg × ℕ)
parse_chunk spare chunk h = do
  t ← checked (uint16 (drop 2 (chunk ++ spare)))
  n ← checked (uint16 (drop 4 (chunk ++ spare)))
  body ← chunk_body chunk n
  h' ← set_field t body h
  ok (h', n)

-- The loop. `currentByte` is a uint16.
unfoldable pub parse_chunks : ℕ → Bytes → Bytes → ℕ → ℕ → HepMsg → Outcome HepError HepMsg
parse_chunks zero spare packet len current h = stuck
parse_chunks (suc fuel) spare packet len current h =
    let rest = parse_chunk spare (drop current packet) h >>= λ (h', n).
    parse_chunks fuel spare packet len ((current + n) % 65536) h' in
    if ltb current len then rest else ok h

-- `parseHep`. Each round moves on by 6 bytes at least, so the fuel is enough.
unfoldable pub parse_hep : Bytes → Bytes → HepMsg → Outcome HepError HepMsg
parse_hep spare packet h = checked (uint16 (drop 4 (packet ++ spare))) >>= λ len.
    if len == length packet
    then parse_chunks (suc len) spare packet len 6 h
    else err (wrong_length (length packet) len)

-- `parse`: of the mark only the bytes 0 and 3 are looked at.
unfoldable pub parse : Bytes → Bytes → HepMsg → Outcome HepError HepMsg
parse spare packet h = checked (get_elem? packet 0) >>= λ a.
    if a == 0x48
    then (checked (get_elem? packet 3) >>= λ c.
        if c == 0x33 then parse_hep spare packet h else err not_hep3)
    else err not_hep3

unfoldable pub decode_hep : Bytes → Bytes → Outcome HepError HepMsg
decode_hep spare packet = parse spare packet new_hep_msg
