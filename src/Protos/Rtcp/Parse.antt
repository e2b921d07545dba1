-- ===== src/Protos/Rtcp/Parse.antt =====
-- protos/rtcp.go: `ParseRTCP`.
use heplify.Common.{
  ℕ, zero, suc, ◌+◌, ◌-◌, ◌*◌, ◌/◌, ◌%◌, bit_and, Bool, ◌||◌, ◌&&◌, not, [], ◌∷◌, ◌++◌, Option,
  none, some, length, take, drop, get_elem?, ltb, leb, ◌==◌, if◌then◌else◌, ok, stuck, ◌>>=◌,
}
use heplify.Common.Bytes.{Bytes, uint16, uint32}
use heplify.Protos.Rtcp.Packet.{
  ReportBlock, ReportBlockXr, RtcpPacket, no_sender, new_rtcp_packet, Info, Scan, Parse, need,
  fishy_length, fishy_header, fishy_sr, fishy_rr, fishy_sdes, fishy_xr, discard_app, discard_bye,
  marshal_failed,
}

-- A report block at the head of `data[offset:]`.
unfoldable pub read_block : Bytes → Parse ReportBlock
read_block d = do
  source ← need (uint32 d)
  fraction ← need (get_elem? d 4)
  c0 ← need (get_elem? d 5)
  c1 ← need (get_elem? d 6)
  c2 ← need (get_elem? d 7)
  highest ← need (uint32 (drop 8 d))
  jitter ← need (uint32 (drop 12 d))
  lsr ← need (uint32 (drop 16 d))
  dlsr ← need (uint32 (drop 20 d))
  ok (record {
    source_ssrc = source;
    fraction_lost = fraction;
    cumulative_lost = c0 * 65536 + c1 * 256 + c2;
    highest_seq_no = highest;
    jitter = jitter;
    last_sr = lsr;
    delay_last_sr = dlsr;
  })

-- `AddReportBlock`
abbrev pub add_report_block : ReportBlock → RtcpPacket → RtcpPacket
add_report_block b p = record p { report_blocks = p.report_blocks ++ b ∷ [] }

-- The loop over the report blocks.
unfoldable pub read_blocks : ℕ → Bytes → Scan → Parse Scan
read_blocks zero packet s = ok s
read_blocks (suc n) packet s = read_block (drop s.offset packet) >>= λ b.
    read_blocks n packet (record s { pkt = add_report_block b s.pkt; offset = s.offset + 24 })

unfoldable pub read_reports : ℕ → ℕ → Bytes → Scan → Parse Scan
read_reports count len packet s =
    if ltb 0 count && leb 24 len && leb (s.offset + 24) (length packet)
    then read_blocks count packet s
    else ok s

abbrev pub say : Info → Scan → Scan
say i s = record s { info = some i }

unfoldable pub read_sr : ℕ → ℕ → Bytes → Scan → Parse Scan
read_sr count len packet s =
    let d = drop s.offset packet in
    let fields = (do
      ssrc ← need (uint32 d)
      msw ← need (uint32 (drop 4 d))
      lsw ← need (uint32 (drop 8 d))
      rtp ← need (uint32 (drop 12 d))
      pkts ← need (uint32 (drop 16 d))
      octets ← need (uint32 (drop 20 d))
      let sender = record no_sender {
        ntp_timestamp_msw = msw;
        ntp_timestamp_lsw = lsw;
        rtp_timestamp = rtp;
        pkt_count = pkts;
        octet_count = octets;
      }
      let p = record (s.pkt) { ssrc = ssrc; sender_information = sender }
      read_reports count len packet
          (record s { ssrc_bytes = some (take 4 d); pkt = p; offset = s.offset + 24 })) in
    if ltb len 24 || ltb (length packet) (s.offset + 24) then ok (say fishy_sr s) else fields

unfoldable pub read_rr : ℕ → ℕ → Bytes → Scan → Parse Scan
read_rr count len packet s =
    let d = drop s.offset packet in
    let fields = (do
      ssrc ← need (uint32 d)
      let p = record (s.pkt) { ssrc = ssrc }
      read_reports count len packet
          (record s { ssrc_bytes = some (take 4 d); pkt = p; offset = s.offset + 4 })) in
    if ltb len 4 || ltb (length packet) (s.offset + 4) then ok (say fishy_rr s) else fields

unfoldable pub read_sdes : ℕ → Bytes → Scan → Parse Scan
read_sdes len packet s =
    let d = drop s.offset packet in
    let fields = (do
      ssrc ← need (uint32 d)
      let p = record (s.pkt) { sdes_ssrc = ssrc }
      ok (record s { ssrc_bytes = some (take 4 d); pkt = p; offset = s.offset + len })) in
    if ltb len 4 || ltb (length packet) (s.offset + 4) then ok (say fishy_sdes s) else fields

-- The VoIP metrics block.
unfoldable pub read_metrics : Bytes → ℕ → Parse ReportBlockXr
read_metrics d t = do
  id ← need (uint32 (drop 8 d))
  lost ← need (get_elem? d 12)
  discarded ← need (get_elem? d 13)
  burst ← need (get_elem? d 14)
  gap ← need (get_elem? d 15)
  burst_time ← need (uint16 (drop 16 d))
  gap_time ← need (uint16 (drop 18 d))
  round_trip ← need (uint16 (drop 20 d))
  end_system ← need (uint16 (drop 22 d))
  ok (record {
    xr_type = t;
    id = id;
    fraction_lost = lost;
    fraction_discard = discarded;
    burst_density = burst;
    gap_density = gap;
    burst_duration = burst_time;
    gap_duration = gap_time;
    round_trip_delay = round_trip;
    end_system_delay = end_system;
  })

-- The extended report's block of type `t`: a VoIP metrics block, or one of which only the type is kept.
unfoldable pub read_xr_block : ℕ → ℕ → Bytes → Scan → Parse ReportBlockXr
read_xr_block t len packet s =
    if t == 7 && leb 24 len && leb (s.offset + 24) (length packet)
    then read_metrics (drop s.offset packet) t
    else ok (record (s.pkt.report_blocks_xr) { xr_type = t })

unfoldable pub read_xr : ℕ → Bytes → Scan → Parse Scan
read_xr len packet s =
    let d = drop s.offset packet in
    let fields = (do
      ssrc ← need (uint32 d)
      t ← need (get_elem? d 4)
      xr ← read_xr_block t len packet s
      let p = record (s.pkt) { ssrc = ssrc; report_blocks_xr = xr }
      ok (record s { ssrc_bytes = some (take 4 d); pkt = p; offset = s.offset + len })) in
    if ltb len 8 || ltb (length packet) (s.offset + 8) then ok (say fishy_xr s) else fields

-- The switch on the packet's type, at the offset behind the header. For 205 and 206 it has no case.
unfoldable pub read_section : ℕ → ℕ → ℕ → Bytes → Scan → Parse Scan
read_section type count len packet s =
    if type == 200
    then read_sr count len packet s
    else if type == 201
    then read_rr count len packet s
    else if type == 202
    then read_sdes len packet s
    else if type == 204
    then ok (record s { info = some discard_app; offset = s.offset + len })
    else if type == 203
    then ok (record s { info = some discard_bye; offset = s.offset + len })
    else if type == 207
    then read_xr len packet s
    else ok s

pub record Header : Type 0 where
  pub version : ℕ
  pub padding : ℕ
  pub report_count : ℕ
  pub type : ℕ
  pub len : ℕ

-- The header at the head of `data[offset:]`.
unfoldable pub read_header : Bytes → Parse Header
read_header d = do
  b0 ← need (get_elem? d 0)
  b1 ← need (get_elem? d 1)
  n ← need (uint16 (drop 2 d))
  ok (record {
    version = bit_and b0 0xc0 / 64;
    padding = bit_and b0 0x20 / 32;
    report_count = bit_and b0 0x1f;
    type = b1;
    len = n * 4 % 65536;
  })

unfoldable pub is_fishy : Header → ℕ → Bool
is_fishy h data_len =
    not (h.version == 2)
    || ltb 1 h.padding
    || ltb 4 h.report_count
    || ltb h.type 200
    || ltb 207 h.type
    || ltb data_len h.len

-- The loop. `dataLen` may fall below 0 in the code, which ends the loop as 0 does.
unfoldable pub scan : ℕ → Bytes → ℕ → Scan → Parse Scan
scan zero packet data_len s = stuck
scan (suc fuel) packet data_len s =
    let round =
      (read_header (drop s.offset packet) >>= λ h.
      let s1 = record s { offset = s.offset + 4 } in
      let p = record (s.pkt) { type = h.type; report_count = h.report_count } in
      let rest =
        (read_section h.type h.report_count h.len packet (record s1 { pkt = p }) >>= λ s2.
        scan fuel packet (data_len - (h.len + 4)) s2) in
      if is_fishy h data_len then ok (say fishy_header s1) else rest) in
    if ltb 0 data_len
    then if ltb data_len 4 || ltb 576 data_len then ok (say fishy_length s) else round
    else ok s

abbrev pub start : Scan
start = record { ssrc_bytes = none; pkt = new_rtcp_packet; info = none; offset = 0 }

-- What `ParseRTCP` returns: ssrcBytes, rtcpPkt and infoMsg.
pub record Parsed : Type 0 where
  pub ssrc_bytes : Option Bytes
  pub rtcp_pkt : Option Bytes
  pub info : Option Info

-- `json` is encoding/json's answer for the packet, `none` an error.
unfoldable pub finish : (RtcpPacket → Option Bytes) → Scan → Parsed
finish json s = elim (json s.pkt) [
  | none ↦ record { ssrc_bytes = none; rtcp_pkt = none; info = some marshal_failed }
  | some b ↦ record { ssrc_bytes = s.ssrc_bytes; rtcp_pkt = some b; info = s.info }
]

-- Each round takes 4 bytes at least off the length, so the length is fuel enough.
unfoldable pub parse_rtcp : (RtcpPacket → Option Bytes) → Bytes → Parse Parsed
parse_rtcp json packet =
    if ltb (length packet) 28
    then ok (record { ssrc_bytes = none; rtcp_pkt = none; info = some fishy_length })
    else (scan (suc (length packet)) packet (length packet) start >>= λ s. ok (finish json s))
