-- ===== src/Protos/Rtcp/Sections.antt =====
-- protos/rtcp.go: the sections of a compound packet, their bytes, and what `ParseRTCP` makes of each.
use heplify.Common.{
  ℕ, suc, ◌+◌, ◌*◌, ◌<◌, ◌≤◌, ◌≡◌, refl, List, [], ◌∷◌, ◌++◌, some, length, drop, length-append,
  length-drop, All, ok, ltb, leb, le→ltb, lt→ltb, drop-drop, append-nil, panic, arith, sym, ap, ◌∙◌,
  true, false,
}
use heplify.Common.Bytes.{Bytes, IsU32, put_uint32, uint32-put_uint32}
use heplify.Protos.Rtcp.Packet.{ReportBlock, SenderInformation, discard_app, discard_bye, Scan}
use heplify.Protos.Rtcp.Parse.{read_reports, read_sr, read_rr, read_sdes, read_section}
use heplify.Protos.Rtcp.Blocks.{
  IsBlock, blocks_bytes, length-blocks_bytes, with_blocks, with_blocks_none,
  read_blocks-blocks_bytes, read_blocks-missing,
}

-- A section: its report count stands in the header, the rest in its body.
pub data Section : Type 0 where
  sender : ℕ → SenderInformation → List ReportBlock → Section
  receiver : ℕ → List ReportBlock → Section
  source : ℕ → ℕ → Bytes → Section
  goodbye : ℕ → Bytes → Section
  application : ℕ → Bytes → Section

abbrev pub section_type : Section → ℕ
section_type (sender ssrc i bs) = 200
section_type (receiver ssrc bs) = 201
section_type (source count ssrc items) = 202
section_type (goodbye count body) = 203
section_type (application count body) = 204

abbrev pub section_count : Section → ℕ
section_count (sender ssrc i bs) = length bs
section_count (receiver ssrc bs) = length bs
section_count (source count ssrc items) = count
section_count (goodbye count body) = count
section_count (application count body) = count

abbrev pub section_body : Section → Bytes
section_body (sender ssrc i bs) =
    put_uint32 ssrc
    ++ (put_uint32 i.ntp_timestamp_msw
        ++ (put_uint32 i.ntp_timestamp_lsw
            ++ (put_uint32 i.rtp_timestamp
                ++ (put_uint32 i.pkt_count ++ (put_uint32 i.octet_count ++ blocks_bytes bs)))))
section_body (receiver ssrc bs) = put_uint32 ssrc ++ blocks_bytes bs
section_body (source count ssrc items) = put_uint32 ssrc ++ items
section_body (goodbye count body) = body
section_body (application count body) = body

abbrev IsInformation : SenderInformation → Type 0
IsInformation i =
    IsU32 i.ntp_timestamp_msw
    × IsU32 i.ntp_timestamp_lsw
    × IsU32 i.rtp_timestamp
    × IsU32 i.pkt_count
    × IsU32 i.octet_count

-- The fields of a section fit their widths.
abbrev pub IsFit : Section → Type 0
IsFit (sender ssrc i bs) = IsU32 ssrc × IsInformation i × All IsBlock bs
IsFit (receiver ssrc bs) = IsU32 ssrc × All IsBlock bs
IsFit (source count ssrc items) = IsU32 ssrc
IsFit (goodbye count body) = Unit
IsFit (application count body) = Unit

abbrev pub with_information : ℕ → SenderInformation → Scan → Scan
with_information ssrc i s = record s {
  ssrc_bytes = some (put_uint32 ssrc);
  pkt = record (s.pkt) { ssrc = ssrc; sender_information = i };
  offset = s.offset + 24;
}

-- What a section makes of the loop's variables, the offset standing at its body.
abbrev pub note : Section → Scan → Scan
note (sender ssrc i bs) s = with_blocks bs (with_information ssrc i s)
note (receiver ssrc bs) s = with_blocks bs (record s {
  ssrc_bytes = some (put_uint32 ssrc);
  pkt = record (s.pkt) { ssrc = ssrc };
  offset = s.offset + 4;
})
note (source count ssrc items) s = record s {
  ssrc_bytes = some (put_uint32 ssrc);
  pkt = record (s.pkt) { sdes_ssrc = ssrc };
  offset = s.offset + (4 + length items);
}
note (goodbye count body) s = record s { info = some discard_bye; offset = s.offset + length body }
note (application count body) s = record s {
  info = some discard_app;
  offset = s.offset + length body;
}

-- Room for a body at the offset.
pub room :
    (packet body rest : Bytes) (o : ℕ)
    → drop o packet ≡ body ++ rest
    → 0 < length body
    → o + length body ≤ length packet
room packet body rest o at some_body =
    let lengths : length (drop o packet) ≡ length (body ++ rest) = ap length at in
    omega (arith, lengths, length-drop o packet, length-append body rest)

read_reports-blocks_bytes :
    (bs : List ReportBlock) (len : ℕ) (packet rest : Bytes) (s : Scan)
    → All IsBlock bs
    → 24 * length bs ≤ len
    → drop s.offset packet ≡ blocks_bytes bs ++ rest
    → read_reports (length bs) len packet s ≡ ok (with_blocks bs s)
unfolding read_reports
read_reports-blocks_bytes [] len packet rest s h fits at = ap ok (sym (with_blocks_none s))
read_reports-blocks_bytes (b ∷ bs) len packet rest s h fits at =
    let lengths = length-blocks_bytes (b ∷ bs) in
    let there = room packet (blocks_bytes (b ∷ bs)) rest s.offset at (omega arith) in
    let enough : leb 24 len ≡ true = ground arith in
    let inside : leb (s.offset + 24) (length packet) ≡ true = ground arith in
    rw (lt→ltb 0 (suc (length bs)) (omega arith), enough, inside)
      (read_blocks-blocks_bytes (b ∷ bs) packet rest s h at)

pub read_reports-missing :
    (bs : List ReportBlock) (count len : ℕ) (packet : Bytes) (s : Scan)
    → All IsBlock bs
    → 0 < length bs
    → length bs < count
    → 24 ≤ len
    → drop s.offset packet ≡ blocks_bytes bs
    → read_reports count len packet s ≡ panic
unfolding read_reports
read_reports-missing bs count len packet s h some_block more long at =
    let lengths = length-blocks_bytes bs in
    let there =
      room packet (blocks_bytes bs) [] s.offset (at ∙ sym (append-nil (blocks_bytes bs)))
        (omega arith) in
    let enough : leb 24 len ≡ true = ground arith in
    let inside : leb (s.offset + 24) (length packet) ≡ true = ground arith in
    rw (lt→ltb 0 count (omega arith), enough, inside)
      (read_blocks-missing bs count packet s h more at)

-- Reading on behind the first `n` bytes of what lies at the offset.
pub behind :
    (n o : ℕ) (packet d rest : Bytes)
    → drop o packet ≡ d
    → drop n d ≡ rest
    → drop (o + n) packet ≡ rest
behind n o packet d rest at e = sym (drop-drop n o packet) ∙ ap (drop n) at ∙ e

module _ (packet rest : Bytes) (len : ℕ) (s : Scan) where
  -- The sender information is read whatever number of blocks the header announces.
  pub read_sr-information :
      (count ssrc : ℕ) (i : SenderInformation) (bs : List ReportBlock)
      → IsFit (sender ssrc i bs)
      → 24 ≤ len
      → drop s.offset packet ≡ section_body (sender ssrc i bs) ++ rest
      → read_sr count len packet s ≡ read_reports count len packet (with_information ssrc i s)
  unfolding read_sr
  read_sr-information count ssrc i bs (h, (h1, h2, h3, h4, h5), hb) size at =
      let there = room packet (section_body (sender ssrc i bs)) rest s.offset at (omega arith) in
      let long : ltb len 24 ≡ false = le→ltb len 24 (omega arith) in
      let inside : ltb (length packet) (s.offset + 24) ≡ false =
        le→ltb (length packet) (s.offset + 24) (omega arith) in
      rw (long, inside, at)
        (rw (
          uint32-put_uint32 ssrc _ h,
          uint32-put_uint32 i.ntp_timestamp_msw _ h1,
          uint32-put_uint32 i.ntp_timestamp_lsw _ h2,
          uint32-put_uint32 i.rtp_timestamp _ h3,
          uint32-put_uint32 i.pkt_count _ h4,
          uint32-put_uint32 i.octet_count (blocks_bytes bs ++ rest) h5,
        ))

  read_sr-body :
      (ssrc : ℕ) (i : SenderInformation) (bs : List ReportBlock)
      → IsFit (sender ssrc i bs)
      → len ≡ length (section_body (sender ssrc i bs))
      → drop s.offset packet ≡ section_body (sender ssrc i bs) ++ rest
      → read_sr (length bs) len packet s ≡ ok (note (sender ssrc i bs) s)
  read_sr-body ssrc i bs (h, hi, hb) size at =
      let lengths = length-blocks_bytes bs in
      read_sr-information (length bs) ssrc i bs (h, hi, hb) (omega arith) at
      ∙ read_reports-blocks_bytes bs len packet rest (with_information ssrc i s) hb (omega arith)
          (behind 24 s.offset packet _ (blocks_bytes bs ++ rest) at refl)

  read_rr-body :
      (ssrc : ℕ) (bs : List ReportBlock)
      → IsFit (receiver ssrc bs)
      → len ≡ length (section_body (receiver ssrc bs))
      → drop s.offset packet ≡ section_body (receiver ssrc bs) ++ rest
      → read_rr (length bs) len packet s ≡ ok (note (receiver ssrc bs) s)
  unfolding read_rr
  read_rr-body ssrc bs (h, hb) size at =
      let lengths = length-blocks_bytes bs in
      let there = room packet (section_body (receiver ssrc bs)) rest s.offset at (omega arith) in
      let long : ltb len 4 ≡ false = le→ltb len 4 (omega arith) in
      let inside : ltb (length packet) (s.offset + 4) ≡ false =
        le→ltb (length packet) (s.offset + 4) (omega arith) in
      let s1 = record s {
        ssrc_bytes = some (put_uint32 ssrc);
        pkt = record (s.pkt) { ssrc = ssrc };
        offset = s.offset + 4;
      } in
      let blocks =
        read_reports-blocks_bytes bs len packet rest s1 hb (omega arith)
          (behind 4 s.offset packet _ (blocks_bytes bs ++ rest) at refl) in
      rw (long, inside, at) (rw (uint32-put_uint32 ssrc (blocks_bytes bs ++ rest) h) blocks)

  read_sdes-body :
      (count ssrc : ℕ) (items : Bytes)
      → IsFit (source count ssrc items)
      → len ≡ length (section_body (source count ssrc items))
      → drop s.offset packet ≡ section_body (source count ssrc items) ++ rest
      → read_sdes len packet s ≡ ok (note (source count ssrc items) s)
  unfolding read_sdes
  read_sdes-body count ssrc items h size at =
      let there =
        room packet (section_body (source count ssrc items)) rest s.offset at (omega arith) in
      let long : ltb len 4 ≡ false = le→ltb len 4 (omega arith) in
      let inside : ltb (length packet) (s.offset + 4) ≡ false =
        le→ltb (length packet) (s.offset + 4) (omega arith) in
      let on : s.offset + len ≡ s.offset + (4 + length items) = omega arith in
      rw (long, inside, at, on) (rw (uint32-put_uint32 ssrc (items ++ rest) h))

  -- The switch runs the case of the section's type, which reads the whole body.
  pub read_section-body :
      (x : Section)
      → IsFit x
      → len ≡ length (section_body x)
      → drop s.offset packet ≡ section_body x ++ rest
      → read_section (section_type x) (section_count x) len packet s ≡ ok (note x s)
  unfolding read_section
  read_section-body (sender ssrc i bs) h size at = read_sr-body ssrc i bs h size at
  read_section-body (receiver ssrc bs) h size at = read_rr-body ssrc bs h size at
  read_section-body (source count ssrc items) h size at = read_sdes-body count ssrc items h size at
  read_section-body (goodbye count body) h size at = rw size
  read_section-body (application count body) h size at = rw size
