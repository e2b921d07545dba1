-- ===== src/Protos/Rtcp/Reports.antt =====
-- protos/rtcp.go: `ParseRTCP` on compound packets, against the description of their sections.
use heplify.Common.{
  ℕ, zero, suc, ◌+◌, ◌-◌, ◌*◌, ◌/◌, ◌%◌, ◌<◌, ◌≤◌, ◌≡◌, refl, bit_and, List, [], ◌∷◌, ◌++◌, Option,
  length, drop, length-append, All, ok, panic, le→ltb, lt→ltb, ◌>>=◌, arith, sym, ap, ◌∙◌, false,
  drop-append, append-nil,
}
use heplify.Common.Bytes.{Bytes, put_uint16, uint16-put_uint16}
use heplify.Common.Bits.{mask_c0, mask_20, mask_1f}
use heplify.Protos.Rtcp.Packet.{RtcpPacket, ReportBlock, SenderInformation, Scan}
use heplify.Protos.Rtcp.Parse.{
  Header, read_header, is_fishy, read_section, scan, start, finish, parse_rtcp,
}
use heplify.Protos.Rtcp.Blocks.{blocks_bytes, length-blocks_bytes}
use heplify.Protos.Rtcp.Sections.{
  Section, sender, receiver, source, goodbye, application, section_type, section_count,
  section_body, IsFit, note, with_information, read_section-body, read_sr-information,
  read_reports-missing, behind,
}

-- The bytes of a section with the count that its header announces.
abbrev pub announced : ℕ → Section → Bytes
announced count x =
    (128 + count) ∷ section_type x ∷ (put_uint16 (length (section_body x) / 4) ++ section_body x)

unfoldable pub sections_bytes : List Section → Bytes
sections_bytes [] = []
sections_bytes (x ∷ xs) = announced (section_count x) x ++ sections_bytes xs

-- A section with fitting fields, at most 4 reports, and a body of whole 32-bit words.
abbrev pub IsSection : Section → Type 0
IsSection x = IsFit x × (section_count x ≤ 4) × (length (section_body x) % 4 ≡ 0)

-- The header's effect and the section's.
abbrev pub note_header : ℕ → Section → Scan → Scan
note_header count x s = record s {
  pkt = record (s.pkt) { type = section_type x; report_count = count };
  offset = s.offset + 4;
}

abbrev pub note_sections : List Section → Scan → Scan
note_sections [] s = s
note_sections (x ∷ xs) s = note_sections xs (note x (note_header (section_count x) x s))

abbrev header_of : ℕ → Section → Header
header_of count x = record {
  version = 2;
  padding = 0;
  report_count = count;
  type = section_type x;
  len = length (section_body x);
}

read_header-announced :
    (count : ℕ) (x : Section) (rest : Bytes)
    → count ≤ 4
    → length (section_body x) % 4 ≡ 0
    → length (section_body x) ≤ 576
    → read_header (announced count x ++ rest) ≡ ok (header_of count x)
unfolding read_header
read_header-announced count x rest few words small =
    let b : 128 + count < 256 = omega arith in
    let version : bit_and (128 + count) 0xc0 / 64 ≡ 2 = omega (arith, mask_c0 (128 + count) b) in
    let padding : bit_and (128 + count) 0x20 / 32 ≡ 0 = omega (arith, mask_20 (128 + count) b) in
    let reports : bit_and (128 + count) 0x1f ≡ count = omega (arith, mask_1f (128 + count) b) in
    let size : length (section_body x) / 4 * 4 % 65536 ≡ length (section_body x) = omega arith in
    rw (
      uint16-put_uint16 (length (section_body x) / 4) (section_body x ++ rest) (omega arith),
      version,
      padding,
      reports,
      size,
    )

type_range : (x : Section) → (200 ≤ section_type x) × (section_type x ≤ 207)
type_range (sender ssrc i bs) = (omega arith, omega arith)
type_range (receiver ssrc bs) = (omega arith, omega arith)
type_range (source count ssrc items) = (omega arith, omega arith)
type_range (goodbye count body) = (omega arith, omega arith)
type_range (application count body) = (omega arith, omega arith)

is_fishy-header_of :
    (count : ℕ) (x : Section) (data_len : ℕ)
    → count ≤ 4
    → length (section_body x) ≤ data_len
    → is_fishy (header_of count x) data_len ≡ false
unfolding is_fishy
is_fishy-header_of count x data_len few fits =
    let (lo, hi) = type_range x in
    rw (
      le→ltb 4 count (omega arith),
      le→ltb (section_type x) 200 lo,
      le→ltb 207 (section_type x) hi,
      le→ltb data_len (length (section_body x)) fits,
    )

-- One round of the loop, up to the switch.
scan-header :
    (fuel count : ℕ) (x : Section) (packet rest : Bytes) (data_len : ℕ) (s : Scan)
    → count ≤ 4
    → length (section_body x) % 4 ≡ 0
    → 4 + length (section_body x) ≤ data_len
    → data_len ≤ 576
    → drop s.offset packet ≡ announced count x ++ rest
    → scan (suc fuel) packet data_len s ≡ (
        read_section (section_type x) count (length (section_body x)) packet (note_header count x s)
        >>= λ s2. scan fuel packet (data_len - (length (section_body x) + 4)) s2)
unfolding scan
scan-header fuel count x packet rest data_len s few words fits small at = rw (
  lt→ltb 0 data_len (omega arith),
  le→ltb data_len 4 (omega arith),
  le→ltb 576 data_len small,
  at,
  read_header-announced count x rest few words (omega arith),
  is_fishy-header_of count x data_len few (omega arith),
)

note-offset : (x : Section) (s : Scan) → (note x s).offset ≡ s.offset + length (section_body x)
note-offset (sender ssrc i bs) s = omega (arith, length-blocks_bytes bs)
note-offset (receiver ssrc bs) s = omega (arith, length-blocks_bytes bs)
note-offset (source count ssrc items) s = omega arith
note-offset (goodbye count body) s = refl
note-offset (application count body) s = refl

scan-sections_bytes :
    (xs : List Section) (fuel : ℕ) (packet : Bytes) (data_len : ℕ) (s : Scan)
    → All IsSection xs
    → data_len ≡ length (sections_bytes xs)
    → data_len ≤ 576
    → data_len < fuel
    → drop s.offset packet ≡ sections_bytes xs
    → scan fuel packet data_len s ≡ ok (note_sections xs s)
unfolding sections_bytes scan
scan-sections_bytes xs zero packet data_len s h size small fuelled at = absurd (omega arith)
scan-sections_bytes [] (suc fuel) packet data_len s h size small fuelled at = rw size
scan-sections_bytes (x ∷ xs) (suc fuel) packet data_len s ((fit, few, words), hs) size small fuelled
      at =
    let body = section_body x in
    let all : data_len ≡ 4 + length body + length (sections_bytes xs) =
      omega (arith, size, length-append (announced (section_count x) x) (sections_bytes xs)) in
    let s1 = note_header (section_count x) x s in
    let at_body : drop s1.offset packet ≡ body ++ sections_bytes xs =
      behind 4 s.offset packet _ _ at refl in
    let here = read_section-body packet (sections_bytes xs) (length body) s1 x fit refl at_body in
    let at_rest : drop (note x s1).offset packet ≡ sections_bytes xs =
      ap (λ o. drop o packet) (note-offset x s1)
      ∙ behind (length body) s1.offset packet _ _ at_body
          (drop-append (length body) body (sections_bytes xs) refl) in
    scan-header fuel (section_count x) x packet (sections_bytes xs) data_len s few words
      (omega arith) small at
    ∙ rw here (
        scan-sections_bytes xs fuel packet (data_len - (length body + 4)) (note x s1) hs
          (omega arith) (omega arith) (omega arith) at_rest)

-- `ParseRTCP` reads every section of a compound packet of 28 to 576 bytes, in order: it answers
-- with what the sections say, the body of each of them consumed to its end.
pub parse_rtcp-sections_bytes :
    (json : RtcpPacket → Option Bytes) (xs : List Section)
    → All IsSection xs
    → 28 ≤ length (sections_bytes xs)
    → length (sections_bytes xs) ≤ 576
    → parse_rtcp json (sections_bytes xs) ≡ ok (finish json (note_sections xs start))
unfolding parse_rtcp
parse_rtcp-sections_bytes json xs h long small =
    let packet = sections_bytes xs in
    rw (
      le→ltb (length packet) 28 long,
      scan-sections_bytes xs (suc (length packet)) packet (length packet) start h refl small
          (omega arith) refl,
    )

-- A sender report that holds one block and announces two, three or four makes `ParseRTCP` panic.
pub parse_rtcp-missing_block :
    (json : RtcpPacket → Option Bytes) (count ssrc : ℕ) (i : SenderInformation) (b : ReportBlock)
    → IsFit (sender ssrc i (b ∷ []))
    → 2 ≤ count
    → count ≤ 4
    → parse_rtcp json (announced count (sender ssrc i (b ∷ []))) ≡ panic
unfolding parse_rtcp read_section
parse_rtcp-missing_block json count ssrc i b (h, hi, hb) more few =
    let x = sender ssrc i (b ∷ []) in
    let packet = announced count x in
    let size : length (blocks_bytes (b ∷ [])) ≡ 24 = length-blocks_bytes (b ∷ []) in
    let s1 = note_header count x start in
    let round =
      scan-header (length packet) count x packet [] (length packet) start few (omega arith)
        (omega arith) (omega arith) (sym (append-nil packet)) in
    let information =
      read_sr-information packet [] (length (section_body x)) s1 count ssrc i (b ∷ []) (h, hi, hb)
        (omega arith) (sym (append-nil (section_body x))) in
    let panics : read_section (section_type x) count (length (section_body x)) packet s1 ≡ panic =
      information
      ∙ read_reports-missing (b ∷ []) count (length (section_body x)) packet
          (with_information ssrc i s1) hb (omega arith) (omega arith) (omega arith) refl in
    rw (le→ltb (length packet) 28 (omega arith), round, panics)
