-- ===== src/Protos/Rtcp/Runs.antt =====
-- protos/rtcp.go: concrete runs, and the theorems at concrete inputs.
use heplify.Common.{◌≡◌, ◌≢◌, refl, List, [], ◌∷◌, Option, some, ok, panic, stuck, arith, All}
use heplify.Common.Bytes.{Bytes}
use heplify.Protos.Rtcp.Packet.{RtcpPacket, ReportBlock, SenderInformation}
use heplify.Protos.Rtcp.Parse.{start, finish, parse_rtcp}
use heplify.Protos.Rtcp.Bounds.{parse_rtcp-ne-stuck}
use heplify.Protos.Rtcp.Blocks.{IsBlock, block_bytes, blocks_bytes}
use heplify.Protos.Rtcp.Sections.{Section, sender, source}
use heplify.Protos.Rtcp.Reports.{
  IsSection, announced, sections_bytes, note_sections, parse_rtcp-sections_bytes,
  parse_rtcp-missing_block,
}

-- A stand-in for encoding/json that keeps the sender's number and the count of blocks.
abbrev json_of : RtcpPacket → Option Bytes
json_of p = some (p.ssrc ∷ p.sdes_ssrc ∷ p.report_count ∷ [])

abbrev block : ReportBlock
block = record {
  source_ssrc = 7;
  fraction_lost = 1;
  cumulative_lost = 65538;
  highest_seq_no = 9000;
  jitter = 11;
  last_sr = 305419896;
  delay_last_sr = 13;
}

abbrev information : SenderInformation
information = record {
  ntp_timestamp_msw = 3752000000;
  ntp_timestamp_lsw = 1;
  rtp_timestamp = 160;
  pkt_count = 50;
  octet_count = 8000;
}

block-IsBlock : IsBlock block
block-IsBlock = record {
  source = omega arith;
  cumulative = omega arith;
  highest = omega arith;
  jitter = omega arith;
  last = omega arith;
  delay = omega arith;
}

-- A sender report with one block, and a source description.
abbrev compound : List Section
compound = sender 5 information (block ∷ []) ∷ source 1 5 (1 ∷ 2 ∷ 97 ∷ 98 ∷ []) ∷ []

compound-IsSection : All IsSection compound
unfolding blocks_bytes block_bytes
compound-IsSection = (
  (
    (
      omega arith,
      (omega arith, omega arith, omega arith, omega arith, omega arith),
      (block-IsBlock, tt),
    ),
    omega arith,
    refl,
  ),
  ((omega arith, omega arith, refl), tt),
)

parse_rtcp-ne-stuck_example :
    parse_rtcp json_of (announced 3 (sender 5 information (block ∷ []))) ≢ stuck
parse_rtcp-ne-stuck_example =
    parse_rtcp-ne-stuck json_of (announced 3 (sender 5 information (block ∷ [])))

parse_rtcp-sections_bytes_example :
    parse_rtcp json_of (sections_bytes compound)
    ≡ ok (finish json_of (note_sections compound start))
unfolding sections_bytes blocks_bytes block_bytes
parse_rtcp-sections_bytes_example =
    parse_rtcp-sections_bytes json_of compound compound-IsSection (omega arith) (omega arith)

parse_rtcp-missing_block_example :
    parse_rtcp json_of (announced 3 (sender 5 information (block ∷ []))) ≡ panic
parse_rtcp-missing_block_example =
    parse_rtcp-missing_block json_of 3 5 information block
      (
        omega arith,
        (omega arith, omega arith, omega arith, omega arith, omega arith),
        (block-IsBlock, tt),
      )
      (omega arith) (omega arith)
