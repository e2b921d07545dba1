-- ===== src/Ownlayers/Rtp/Accepts.antt =====
-- ownlayers/rtp.go: which packets `decodeRTP` accepts, and what it reads from them.
use heplify.Common.{
  ◌⊎◌, ℕ, zero, suc, ◌+◌, ◌-◌, ◌*◌, ◌/◌, ◌%◌, ◌≤◌, ◌<◌, ◌≡◌, ◌≢◌, ◌↔◌, refl, bit_and, true, false,
  ◌||◌, ◌&&◌, List, [], ◌∷◌, some, length, drop, length-drop, ltb, leb, ◌==◌, if◌then◌else◌,
  Bool-cases, inl, inr, ◌∙◌, le→ltb, lt→ltb, ltb→lt, not_ltb→le, ==→eq, ==_of_ne, ==_of_eq, ok, err,
  arith,
}
use heplify.Common.Bytes.{Bytes, IsByte}
use heplify.Common.Bits.{mask_c0, mask_80, mask_7f, mask_20, mask_10, mask_0f}
use heplify.Ownlayers.Rtp.{
  Rtp, not_valid, no_content, short_csrc, new_rtp, and_then, read_csrc, store_csrc, decode_csrc,
  decode_extension, decode_extension_header, decode_payload, decode_rest, decode_from_bytes,
  decode_rtp,
}

read_csrc_reads :
    (n : ℕ) (rest : Bytes)
    → 4 * n ≤ length rest
    → (vs : List ℕ) × (read_csrc n rest ≡ some (vs, drop (4 * n) rest)) × (length vs ≡ n)
unfolding read_csrc
read_csrc_reads zero rest h = ([], refl, refl)
read_csrc_reads (suc n) (a ∷ b ∷ c ∷ d ∷ rest) h =
    let (vs, e, len) = read_csrc_reads n rest (omega arith) in
    let four : 4 * suc n ≡ suc (suc (suc (suc (4 * n)))) = omega arith in
    ((a * 16777216 + b * 65536 + c * 256 + d) ∷ vs, rw (e, four), omega arith)
read_csrc_reads (suc n) [] h = absurd (omega arith)
read_csrc_reads (suc n) (a ∷ []) h = absurd (omega arith)
read_csrc_reads (suc n) (a ∷ b ∷ []) h = absurd (omega arith)
read_csrc_reads (suc n) (a ∷ b ∷ c ∷ []) h = absurd (omega arith)

-- The sources are read, and nothing but `csrc` changes.
record ReadsCsrc (r r' : Rtp) : Type 0 where
  count : length r'.csrc ≡ r.cc
  padding : r'.padding ≡ r.padding
  extension : r'.extension ≡ r.extension
  header_length : r'.extension_header_length ≡ r.extension_header_length
  marker : r'.marker ≡ r.marker
  payload_type : r'.payload_type ≡ r.payload_type
  ssrc : r'.ssrc ≡ r.ssrc

decode_csrc_reads :
    (r : Rtp) (rest : Bytes)
    → r.csrc ≡ []
    → r.cc < 16
    → 4 * r.cc ≤ length rest
    → (r' : Rtp) × (decode_csrc r rest ≡ (r', ok (drop (4 * r.cc) rest))) × ReadsCsrc r r'
unfolding decode_csrc store_csrc
decode_csrc_reads r rest empty small more = elim (Bool-cases (ltb 0 r.cc)) [
  | inl some_of ↦
      let (vs, e, len) = read_csrc_reads r.cc rest more in
      (
        record r { csrc = vs },
        rw (some_of, le→ltb (length rest) (r.cc * 4 % 256) (omega arith), e),
        record {
          count = len;
          padding = refl;
          extension = refl;
          header_length = refl;
          marker = refl;
          payload_type = refl;
          ssrc = refl;
        },
      )
  | inr none_of ↦
      let zero_cc : r.cc ≡ 0 = omega (arith, not_ltb→le 0 r.cc none_of) in
      let nothing : 4 * r.cc ≡ 0 = omega arith in
      (
        r,
        rw (none_of, nothing),
        record {
          count = rw empty (omega arith);
          padding = refl;
          extension = refl;
          header_length = refl;
          marker = refl;
          payload_type = refl;
          ssrc = refl;
        },
      )
]

decode_csrc_short :
    (r : Rtp) (rest : Bytes)
    → r.cc < 16
    → length rest < 4 * r.cc
    → decode_csrc r rest ≡ (r, err short_csrc)
unfolding decode_csrc
decode_csrc_short r rest small few =
    rw (lt→ltb 0 r.cc (omega arith), lt→ltb (length rest) (r.cc * 4 % 256) (omega arith))

-- A packet with no flag bit set.
record IsPlain (r : Rtp) : Type 0 where
  padding : r.padding ≡ 0
  extension : r.extension ≡ 0
  marker : r.marker ≡ 0
  header_length : r.extension_header_length ≡ 0
  csrc : r.csrc ≡ []
  small : r.cc < 16

-- After the sources, what is left is the payload.
decode_tail :
    (packet : Bytes) (r : Rtp) (left : Bytes)
    → r.padding ≡ 0
    → r.extension ≡ 0
    → r.extension_header_length ≡ 0
    → and_then (decode_extension r left) (λ r2 rest2.
      and_then (decode_extension_header r2 rest2) λ r3 rest3. decode_payload packet r3 rest3)
      ≡ (if length left == 0 then (r, err no_content) else (record r { payload = left }, ok []))
unfolding decode_extension decode_extension_header decode_payload
decode_tail packet r left pad ext ehl =
    let no_extension : (r.extension == 1) ≡ false = ground arith in
    let no_header : ltb 0 r.extension_header_length ≡ false = ground arith in
    let no_padding : (r.padding == 1) ≡ false = ground arith in
    rw no_extension (rw no_header (rw no_padding refl))

decode_rest_plain :
    (packet : Bytes) (r : Rtp) (rest : Bytes)
    → IsPlain r
    → 4 * r.cc < length rest
    → (r' : Rtp) × (decode_rest packet r rest
        ≡ (record r' { payload = drop (4 * r.cc) rest }, ok []))
      × ReadsCsrc r r'
unfolding decode_rest
decode_rest_plain packet r rest plain more =
    let (r', e, reads) = decode_csrc_reads r rest plain.csrc plain.small (omega arith) in
    let flags : (ltb 1 r.padding || ltb 1 r.extension || ltb 1 r.marker) ≡ false =
      ground (arith, plain.padding, plain.extension, plain.marker) in
    let left : (length (drop (4 * r.cc) rest) == 0) ≡ false =
      ==_of_ne _ 0 (omega (arith, length-drop (4 * r.cc) rest)) in
    (
      r',
      rw (flags, e)
          (decode_tail packet r' (drop (4 * r.cc) rest) (reads.padding ∙ plain.padding)
              (reads.extension ∙ plain.extension) (reads.header_length ∙ plain.header_length)
            ∙ rw left),
      reads,
    )

decode_rest_short :
    (packet : Bytes) (r : Rtp) (rest : Bytes)
    → IsPlain r
    → length rest ≤ 4 * r.cc
    → (decode_rest packet r rest).1 ≢ ok []
unfolding decode_rest
decode_rest_short packet r rest plain few =
    let flags : (ltb 1 r.padding || ltb 1 r.extension || ltb 1 r.marker) ≡ false =
      ground (arith, plain.padding, plain.extension, plain.marker) in
    elim (Bool-cases (ltb (length rest) (4 * r.cc))) [
      | inl fewer ↦
          let short =
            decode_csrc_short r rest plain.small (ltb→lt (length rest) (4 * r.cc) fewer) in
          rw (flags, short) (λ e. cc)
      | inr just ↦
          let full = not_ltb→le (length rest) (4 * r.cc) just in
          let (r', e, reads) = decode_csrc_reads r rest plain.csrc plain.small full in
          let left : (length (drop (4 * r.cc) rest) == 0) ≡ true =
            ==_of_eq (length (drop (4 * r.cc) rest)) 0
              (omega (arith, length-drop (4 * r.cc) rest)) in
          let tail =
            decode_tail packet r' (drop (4 * r.cc) rest) (reads.padding ∙ plain.padding)
              (reads.extension ∙ plain.extension) (reads.header_length ∙ plain.header_length) in
          rw (flags, e) (rw (tail, left) (λ q. cc))
    ]

decode_rest_flagged :
    (packet : Bytes) (r : Rtp) (rest : Bytes)
    → (ltb 1 r.padding || ltb 1 r.extension || ltb 1 r.marker) ≡ true
    → decode_rest packet r rest ≡ (r, err not_valid)
unfolding decode_rest
decode_rest_flagged packet r rest flagged = rw flagged

-- The header that the first two bytes and the three numbers give.
abbrev header : Bytes → ℕ → ℕ → ℕ → ℕ → ℕ → Rtp
header packet b0 b1 n t s = record new_rtp {
  contents = packet;
  version = 2;
  cc = b0 - 128;
  payload_type = b1;
  sequence_number = n;
  timestamp = t;
  ssrc = s;
}

module _ (b0 b1 n0 n1 t0 t1 t2 t3 s0 s1 s2 s3 : ℕ) (rest : Bytes) (byte0 : IsByte b0)
    (byte1 : IsByte b1) where
  abbrev pub rtp_packet : Bytes
  rtp_packet = b0 ∷ b1 ∷ n0 ∷ n1 ∷ t0 ∷ t1 ∷ t2 ∷ t3 ∷ s0 ∷ s1 ∷ s2 ∷ s3 ∷ rest

  -- Version 2, no flag bit, and something behind the sources.
  abbrev pub IsAccepted : Type 0
  IsAccepted = (128 ≤ b0) × (b0 < 144) × (b1 < 128) × (4 * (b0 - 128) < length rest)

  decode_rtp-header :
      128 ≤ b0
      → b0 < 144
      → b1 < 128
      → decode_rtp rtp_packet
        ≡ decode_rest rtp_packet
            (header rtp_packet b0 b1
              (n0 * 256 + n1)
              (t0 * 16777216 + t1 * 65536 + t2 * 256 + t3)
              (s0 * 16777216 + s1 * 65536 + s2 * 256 + s3))
            rest
  unfolding decode_rtp decode_from_bytes
  decode_rtp-header lo hi clear =
      let version : bit_and b0 0xc0 / 64 ≡ 2 = omega (arith, mask_c0 b0 byte0) in
      let padding : bit_and b0 0x20 ≡ 0 = omega (arith, mask_20 b0 byte0) in
      let extension : bit_and b0 0x10 ≡ 0 = omega (arith, mask_10 b0 byte0) in
      let count : bit_and b0 0x0f ≡ b0 - 128 = omega (arith, mask_0f b0 byte0) in
      let marker : bit_and b1 0x80 ≡ 0 = omega (arith, mask_80 b1 byte1) in
      let type_is : bit_and b1 0x7f ≡ b1 = omega (arith, mask_7f b1 byte1) in
      rw (version, padding, extension, count, marker, type_is)

  flag_set :
      128 ≤ b0
      → b0 < 192
      → (128 ≤ b0 → b0 < 144 → b1 < 128 → ⊥)
      → (ltb 1 (bit_and b0 0x20) || ltb 1 (bit_and b0 0x10) || ltb 1 (bit_and b1 0x80)) ≡ true
  flag_set lo hi other = elim (Bool-cases (ltb b0 144)) [
    | inl low ↦
        let marked : 128 ≤ b1 = omega (arith, other lo (ltb→lt b0 144 low)) in
        rw (mask_20 b0 byte0, mask_10 b0 byte0, mask_80 b1 byte1) (ground arith)
    | inr high ↦
        let at_least = not_ltb→le b0 144 high in
        rw (mask_20 b0 byte0, mask_10 b0 byte0) (ground arith)
  ]

  -- Any other first two bytes are refused.
  decode_rtp_refuses : (128 ≤ b0 → b0 < 144 → b1 < 128 → ⊥) → (decode_rtp rtp_packet).1 ≢ ok []
  unfolding decode_rtp decode_from_bytes
  decode_rtp_refuses other = elim (Bool-cases (bit_and b0 0xc0 / 64 == 2)) [
    | inr unlike ↦ rw unlike (λ e. cc)
    | inl two ↦
        let top = ==→eq (bit_and b0 0xc0 / 64) 2 two in
        let flagged =
          flag_set (omega (arith, mask_c0 b0 byte0, top)) (omega (arith, mask_c0 b0 byte0, top))
            other in
        let r = record new_rtp {
          contents = rtp_packet;
          version = bit_and b0 0xc0 / 64;
          padding = bit_and b0 0x20;
          extension = bit_and b0 0x10;
          cc = bit_and b0 0x0f;
          marker = bit_and b1 0x80;
          payload_type = bit_and b1 0x7f;
          sequence_number = n0 * 256 + n1;
          timestamp = t0 * 16777216 + t1 * 65536 + t2 * 256 + t3;
          ssrc = s0 * 16777216 + s1 * 65536 + s2 * 256 + s3;
        } in
        rw two (rw (decode_rest_flagged rtp_packet r rest flagged) (λ e. cc))
  ]

  header-IsPlain : (n t s : ℕ) → b0 < 144 → IsPlain (header rtp_packet b0 b1 n t s)
  header-IsPlain n t s hi = record {
    padding = refl;
    extension = refl;
    marker = refl;
    header_length = refl;
    csrc = refl;
    small = omega arith;
  }

  -- `decodeRTP` accepts a packet of 12 bytes or more exactly if it has version 2, no padding,
  -- extension or marker bit, and at least one byte behind the contributing sources.
  pub decode_rtp_iff : ((decode_rtp rtp_packet).1 ≡ ok []) ↔ IsAccepted
  decode_rtp_iff = (forward, backward)
    where
      n : ℕ
      n = n0 * 256 + n1

      t : ℕ
      t = t0 * 16777216 + t1 * 65536 + t2 * 256 + t3

      s : ℕ
      s = s0 * 16777216 + s1 * 65536 + s2 * 256 + s3

      in_range : (128 ≤ b0 → b0 < 144 → b1 < 128 → ⊥) ⊎ ((128 ≤ b0) × (b0 < 144) × (b1 < 128))
      in_range = elim (Bool-cases (leb 128 b0 && ltb b0 144 && ltb b1 128)) [
        | inl fine ↦ inr (ground arith, ground arith, ground arith)
        | inr other ↦ inl (λ lo hi clear. ground arith)
      ]

      forward : (decode_rtp rtp_packet).1 ≡ ok [] → IsAccepted
      forward e = elim in_range [
        | inl other ↦ absurd (decode_rtp_refuses other e)
        | inr (lo, hi, clear) ↦ elim (Bool-cases (ltb (4 * (b0 - 128)) (length rest))) [
          | inl more ↦ (lo, hi, clear, ltb→lt (4 * (b0 - 128)) (length rest) more)
          | inr few ↦ absurd (
              decode_rest_short rtp_packet (header rtp_packet b0 b1 n t s) rest
                (header-IsPlain n t s hi) (not_ltb→le (4 * (b0 - 128)) (length rest) few)
                (rw (decode_rtp-header lo hi clear) at e))
        ]
      ]

      backward : IsAccepted → (decode_rtp rtp_packet).1 ≡ ok []
      backward (lo, hi, clear, more) =
          let (r', e, reads) =
            decode_rest_plain rtp_packet (header rtp_packet b0 b1 n t s) rest
              (header-IsPlain n t s hi) more in
          rw (decode_rtp-header lo hi clear, e)

  -- The layer of an accepted packet: the payload is all that follows the contributing sources.
  decode_rtp_payload :
      IsAccepted
      → ((decode_rtp rtp_packet).0.payload ≡ drop (4 * (b0 - 128)) rest)
        × (length (decode_rtp rtp_packet).0.csrc ≡ b0 - 128)
        × ((decode_rtp rtp_packet).0.payload_type ≡ b1)
        × ((decode_rtp rtp_packet).0.ssrc ≡ s0 * 16777216 + s1 * 65536 + s2 * 256 + s3)
  decode_rtp_payload (lo, hi, clear, more) =
      let r =
        header rtp_packet b0 b1 (n0 * 256 + n1) (t0 * 16777216 + t1 * 65536 + t2 * 256 + t3)
          (s0 * 16777216 + s1 * 65536 + s2 * 256 + s3) in
      let (r', e, reads) =
        decode_rest_plain rtp_packet r rest
          (header-IsPlain (n0 * 256 + n1) (t0 * 16777216 + t1 * 65536 + t2 * 256 + t3)
            (s0 * 16777216 + s1 * 65536 + s2 * 256 + s3) hi)
          more in
      rw (decode_rtp-header lo hi clear, e) (refl, reads.count, reads.payload_type, reads.ssrc)
