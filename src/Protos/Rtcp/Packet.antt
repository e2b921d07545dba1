-- ===== src/Protos/Rtcp/Packet.antt =====
-- protos/rtcp.go: the records of an RTCP packet, and the variables of `ParseRTCP`.
use heplify.Common.{ℕ, List, [], Option, none, some, Outcome, ok, panic}
use heplify.Common.Bytes.{Bytes}

-- `RTCP_report_block`
pub record ReportBlock : Type 0 where
  pub source_ssrc : ℕ
  pub fraction_lost : ℕ
  pub cumulative_lost : ℕ
  pub highest_seq_no : ℕ
  pub jitter : ℕ
  pub last_sr : ℕ
  pub delay_last_sr : ℕ

-- `RTCP_report_block_xr`
pub record ReportBlockXr : Type 0 where
  pub xr_type : ℕ
  pub id : ℕ
  pub fraction_lost : ℕ
  pub fraction_discard : ℕ
  pub burst_density : ℕ
  pub gap_density : ℕ
  pub burst_duration : ℕ
  pub gap_duration : ℕ
  pub round_trip_delay : ℕ
  pub end_system_delay : ℕ

pub record SenderInformation : Type 0 where
  pub ntp_timestamp_msw : ℕ
  pub ntp_timestamp_lsw : ℕ
  pub rtp_timestamp : ℕ
  pub pkt_count : ℕ
  pub octet_count : ℕ

-- `RTCP_Packet`
pub record RtcpPacket : Type 0 where
  pub sender_information : SenderInformation
  pub ssrc : ℕ
  pub type : ℕ
  pub report_count : ℕ
  pub report_blocks : List ReportBlock
  pub report_blocks_xr : ReportBlockXr
  pub sdes_ssrc : ℕ

abbrev pub new_xr : ReportBlockXr
new_xr = record {
  xr_type = 0;
  id = 0;
  fraction_lost = 0;
  fraction_discard = 0;
  burst_density = 0;
  gap_density = 0;
  burst_duration = 0;
  gap_duration = 0;
  round_trip_delay = 0;
  end_system_delay = 0;
}

abbrev pub no_sender : SenderInformation
no_sender = record {
  ntp_timestamp_msw = 0;
  ntp_timestamp_lsw = 0;
  rtp_timestamp = 0;
  pkt_count = 0;
  octet_count = 0;
}

-- `&RTCP_Packet{}`
abbrev pub new_rtcp_packet : RtcpPacket
new_rtcp_packet = record {
  sender_information = no_sender;
  ssrc = 0;
  type = 0;
  report_count = 0;
  report_blocks = [];
  report_blocks_xr = new_xr;
  sdes_ssrc = 0;
}

-- The kinds of `infoMsg`.
pub data Info : Type 0 where
  fishy_length fishy_header fishy_sr fishy_rr fishy_sdes fishy_xr : Info
  discard_app discard_bye marshal_failed : Info

-- The variables of the loop; `none` is a nil slice or an empty message.
pub record Scan : Type 0 where
  pub ssrc_bytes : Option Bytes
  pub pkt : RtcpPacket
  pub info : Option Info
  pub offset : ℕ

abbrev pub Parse {ℓ} : Type ℓ → Type ℓ
Parse A = Outcome ⊥ A

-- An index or a slice out of range panics.
abbrev pub need {ℓ} : {A : Type ℓ} → Option A → Parse A
need none = panic
need (some a) = ok a
