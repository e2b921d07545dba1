-- ===== src/Ownlayers/Rtp.antt =====
-- ownlayers/rtp.go: the RTP layer and its `DecodeFromBytes`.
pub mod Accepts
mod Runs
use heplify.Common.{
  ℕ, zero, suc, ◌+◌, ◌-◌, ◌*◌, ◌/◌, ◌%◌, bit_and, Bool, ◌||◌, not, List, [], ◌∷◌, Option, none,
  some, length, take, drop, ltb, leb, ◌==◌, if◌then◌else◌, Outcome, ok, err, panic, stuck, ◌>>=◌,
}
use heplify.Common.Bytes.{Bytes, uint16, uint32}

pub record Rtp : Type 0 where
  pub version : ℕ
  pub padding : ℕ
  pub extension : ℕ
  pub cc : ℕ
  pub marker : ℕ
  pub payload_type : ℕ
  pub sequence_number : ℕ
  pub timestamp : ℕ
  pub ssrc : ℕ
  pub csrc : List ℕ
  pub extension_header_id : ℕ
  pub extension_header_length : ℕ
  pub extension_header : Bytes
  pub payload : Bytes
  pub contents : Bytes

-- `&RTP{}`
abbrev pub new_rtp : Rtp
new_rtp = record {
  version = 0;
  padding = 0;
  extension = 0;
  cc = 0;
  marker = 0;
  payload_type = 0;
  sequence_number = 0;
  timestamp = 0;
  ssrc = 0;
  csrc = [];
  extension_header_id = 0;
  extension_header_length = 0;
  extension_header = [];
  payload = [];
  contents = [];
}

pub data RtpError : Type 0 where
  short_header wrong_version not_valid short_csrc : RtpError
  short_extension_header short_extensions no_content bad_padding : RtpError

-- What a step of the method leaves in the receiver, and the bytes from the offset on.
abbrev pub Decoding : Type 0
Decoding = Rtp × Outcome RtpError Bytes

abbrev pub and_then : Decoding → (Rtp → Bytes → Decoding) → Decoding
and_then (r, ok rest) f = f r rest
and_then (r, err e) f = (r, err e)
and_then (r, panic) f = (r, panic)
and_then (r, stuck) f = (r, stuck)

-- The loop over the contributing sources: their numbers, and the bytes behind them.
unfoldable pub read_csrc : ℕ → Bytes → Option (List ℕ × Bytes)
unfolding uint32
read_csrc zero rest = some ([], rest)
read_csrc (suc n) rest = elim (uint32 rest) [
  | none ↦ none
  | some v ↦ elim (read_csrc n (drop 4 rest)) [
    | none ↦ none
    | some (vs, left) ↦ some (v ∷ vs, left)
  ]
]

unfoldable pub store_csrc : Rtp → Option (List ℕ × Bytes) → Decoding
store_csrc r none = (r, panic)
store_csrc r (some (vs, left)) = (record r { csrc = vs }, ok left)

-- `r.CC*4` is a uint8.
unfoldable pub decode_csrc : Rtp → Bytes → Decoding
decode_csrc r rest =
    if ltb 0 r.cc
    then if ltb (length rest) (r.cc * 4 % 256)
      then (r, err short_csrc)
      else store_csrc r (read_csrc r.cc rest)
    else (r, ok rest)

unfoldable pub store_extension : Rtp → Bytes → Decoding
store_extension r (a ∷ b ∷ c ∷ d ∷ rest) =
    (record r { extension_header_id = a * 256 + b; extension_header_length = c * 256 + d }, ok rest)
store_extension r rest = (r, err short_extension_header)

unfoldable pub decode_extension : Rtp → Bytes → Decoding
decode_extension r rest = if r.extension == 1 then store_extension r rest else (r, ok rest)

unfoldable pub decode_extension_header : Rtp → Bytes → Decoding
decode_extension_header r rest =
    let n = 4 * r.extension_header_length in
    if ltb 0 r.extension_header_length
    then if ltb (length rest) n
      then (r, err short_extensions)
      else (record r { extension_header = take n rest }, ok (drop n rest))
    else (r, ok rest)

-- `data[len(data)-1]`
unfoldable pub last_byte : Bytes → ℕ
last_byte [] = 0
last_byte (a ∷ []) = a
last_byte (a ∷ b ∷ rest) = last_byte (b ∷ rest)

-- The payload; nothing is left to decode.
unfoldable pub decode_payload : Bytes → Rtp → Bytes → Decoding
decode_payload packet r rest =
    let pad_len = last_byte packet in
    if length rest == 0
    then (r, err no_content)
    else if r.padding == 1
    then if leb pad_len 0 || ltb (length rest) pad_len
      then (r, err bad_padding)
      else (record r { payload = take (length rest - pad_len) rest }, ok [])
    else (record r { payload = rest }, ok [])

unfoldable pub decode_rest : Bytes → Rtp → Bytes → Decoding
decode_rest packet r rest =
    if ltb 1 r.padding || ltb 1 r.extension || ltb 1 r.marker
    then (r, err not_valid)
    else and_then (decode_csrc r rest) λ r1 rest1. and_then (decode_extension r1 rest1) λ r2 rest2.
      and_then (decode_extension_header r2 rest2) λ r3 rest3. decode_payload packet r3 rest3

-- The clause with twelve bytes is the case that the length check lets pass.
unfoldable pub decode_from_bytes : Rtp → Bytes → Decoding
decode_from_bytes r (b0 ∷ b1 ∷ n0 ∷ n1 ∷ t0 ∷ t1 ∷ t2 ∷ t3 ∷ s0 ∷ s1 ∷ s2 ∷ s3 ∷ rest) =
    let packet = b0 ∷ b1 ∷ n0 ∷ n1 ∷ t0 ∷ t1 ∷ t2 ∷ t3 ∷ s0 ∷ s1 ∷ s2 ∷ s3 ∷ rest in
    let r1 = record r { version = bit_and b0 0xc0 / 64 } in
    let r2 = record r1 {
      padding = bit_and b0 0x20;
      extension = bit_and b0 0x10;
      cc = bit_and b0 0x0f;
      marker = bit_and b1 0x80;
      payload_type = bit_and b1 0x7f;
      sequence_number = n0 * 256 + n1;
      timestamp = t0 * 16777216 + t1 * 65536 + t2 * 256 + t3;
      ssrc = s0 * 16777216 + s1 * 65536 + s2 * 256 + s3;
    } in
    if not (r1.version == 2) then (r1, err wrong_version) else decode_rest packet r2 rest
decode_from_bytes r packet = (r, err short_header)

-- `decodeRTP`: the layer that is added to the packet.
unfoldable pub decode_rtp : Bytes → Decoding
decode_rtp packet = decode_from_bytes (record new_rtp { contents = packet }) packet
