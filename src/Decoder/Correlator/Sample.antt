-- ===== src/Decoder/Correlator/Sample.antt =====
-- decoder/correlator.go: the data of the concrete runs.
use heplify.Common.{
  ◌≡◌, refl, true, List, [], ◌∷◌, ◌++◌, Option, none, some, ok, if◌then◌else◌, arith, ap, sym, ◌∙◌,
  All,
}
use heplify.Common.Bytes.{Bytes, put_uint32, bytes_eq, bytes_eq_iff}
use heplify.Decoder.Ng.Numbers.{digits, decimal}
use heplify.Protos.Rtcp.Packet.{RtcpPacket, SenderInformation}
use heplify.Protos.Rtcp.Parse.{Parsed, finish, parse_rtcp}
use heplify.Protos.Rtcp.Blocks.{blocks_bytes}
use heplify.Protos.Rtcp.Sections.{Section, sender}
use heplify.Protos.Rtcp.Reports.{IsSection, sections_bytes, parse_rtcp-sections_bytes}
use heplify.Decoder.Correlator.Search.{has_prefix, index, field}
use heplify.Decoder.Correlator.Cache.{Cache, KeepsSet}
use heplify.Decoder.Correlator.Sdp.{increment_last, add_port, find_call_id, sdp_entry, or_else}

-- A cache that forgets nothing.
abbrev pub assoc_get : Bytes → List (Bytes × Bytes) → Option Bytes
assoc_get k [] = none
assoc_get k ((k', v) ∷ s) = let further = assoc_get k s in if bytes_eq k k' then some v else further

abbrev pub assoc : Cache
assoc = record {
  Store = List (Bytes × Bytes);
  get = assoc_get;
  set = λ k v seconds s. some ((k, v) ∷ s);
}

pub assoc-KeepsSet : KeepsSet assoc
assoc-KeepsSet k v seconds s s' e =
    let same : (k, v) ∷ s ≡ s' = ap (or_else s) e in
    let hit : bytes_eq k k ≡ true = (bytes_eq_iff k k).1 refl in
    ap (assoc_get k) (sym same) ∙ rw hit

-- A body with the address 1.1.1.1 and the audio port 4000, of the dialog "a1".
abbrev pub message : Bytes
message =
    120 ∷ 13 ∷ 10 ∷ 105 ∷ 58 ∷ 32 ∷ 97 ∷ 49 ∷ 13 ∷ 10 ∷ 99 ∷ 61 ∷ 73 ∷ 78 ∷ 32 ∷ 73 ∷ 80 ∷ 52 ∷ 32
    ∷ 49 ∷ 46 ∷ 49 ∷ 46 ∷ 49 ∷ 46 ∷ 49 ∷ 13 ∷ 10 ∷ 109 ∷ 61 ∷ 97 ∷ 117 ∷ 100 ∷ 105 ∷ 111 ∷ 32 ∷ 52
    ∷ 48 ∷ 48 ∷ 48 ∷ 32 ∷ 82 ∷ 84 ∷ 80 ∷ 47 ∷ 65 ∷ 86 ∷ 80 ∷ 32 ∷ 48 ∷ 13 ∷ 10 ∷ []

abbrev pub address : Bytes
address = 49 ∷ 46 ∷ 49 ∷ 46 ∷ 49 ∷ 46 ∷ 49 ∷ []

pub message_entry : sdp_entry message ≡ some (address ++ decimal 4001, 97 ∷ 49 ∷ [])
unfolding sdp_entry add_port find_call_id field index has_prefix increment_last digits
message_entry = refl

abbrev pub json_of : RtcpPacket → Option Bytes
json_of p = some (p.ssrc ∷ [])

abbrev pub information : SenderInformation
information = record {
  ntp_timestamp_msw = 3752000000;
  ntp_timestamp_lsw = 1;
  rtp_timestamp = 160;
  pkt_count = 50;
  octet_count = 8000;
}

abbrev pub reports : List Section
reports = sender 5 information [] ∷ []

reports-IsSection : All IsSection reports
unfolding blocks_bytes
reports-IsSection = (
  (
    (omega arith, (omega arith, omega arith, omega arith, omega arith, omega arith), tt),
    omega arith,
    refl,
  ),
  tt,
)

abbrev pub parsed : Parsed
parsed = record { ssrc_bytes = some (put_uint32 5); rtcp_pkt = some (5 ∷ []); info = none }

pub parsing : parse_rtcp json_of (sections_bytes reports) ≡ ok parsed
unfolding sections_bytes blocks_bytes finish
parsing = parse_rtcp-sections_bytes json_of reports reports-IsSection (omega arith) (omega arith)

-- The same packet's bytes behind the first two.
abbrev pub rtcp_rest : Bytes
rtcp_rest =
    0 ∷ 6 ∷ 0 ∷ 0 ∷ 0 ∷ 5 ∷ 223 ∷ 162 ∷ 250 ∷ 0 ∷ 0 ∷ 0 ∷ 0 ∷ 1 ∷ 0 ∷ 0 ∷ 0 ∷ 160 ∷ 0 ∷ 0 ∷ 0 ∷ 50
    ∷ 0 ∷ 0 ∷ 31 ∷ 64 ∷ []

pub rtcp_parsing : parse_rtcp json_of (128 ∷ 200 ∷ rtcp_rest) ≡ ok parsed
unfolding sections_bytes blocks_bytes
rtcp_parsing = parsing
