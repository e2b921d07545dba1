-- ===== src/Decoder/Process/Payload.antt =====
-- decoder/decoder.go: the part of `Process` behind the network layer, with the decoder's counters and
-- caches. gopacket finds the layers, which are an argument.
use heplify.Common.{
  ℕ, ◌+◌, ◌/◌, ◌%◌, bit_and, Bool, true, false, ◌&&◌, ◌||◌, not, [], ◌∷◌, Option, none, some, ◌==◌,
  if◌then◌else◌, Outcome, ok, err, panic, stuck,
}
use heplify.Common.Bytes.{Bytes}
use heplify.Publish.Hep.{Packet}
use heplify.Protos.Rtcp.Packet.{RtcpPacket}
use heplify.Decoder.Ng.{Value}
use heplify.Decoder.Correlator.Search.{index}
use heplify.Decoder.Correlator.Cache.{Cache}
use heplify.Decoder.Correlator.Sdp.{cache_sdp_ip_port}
use heplify.Decoder.Correlator.Rtcp.{Reply, is_some, correlate_rtcp}
use heplify.Decoder.Correlator.Log.{correlate_log, correlate_ng}

-- `config.Cfg.Mode`: "SIP", "SIPLOG", or any other.
pub data Mode : Type 0 where
  sip_only sip_log all_protocols : Mode

abbrev pub is_sip_log : Mode → Bool
is_sip_log sip_log = true
is_sip_log m = false

abbrev pub is_sip_only : Mode → Bool
is_sip_only sip_only = true
is_sip_only m = false

-- The counters of `Stats` that this part changes.
pub record Stats : Type 0 where
  pub dns_count : ℕ
  pub rtcp_count : ℕ
  pub rtcp_fail_count : ℕ
  pub tcp_count : ℕ
  pub udp_count : ℕ
  pub unknown_count : ℕ

-- A UDP or TCP layer; its payload is never nil.
pub record Segment : Type 0 where
  pub src_port : ℕ
  pub dst_port : ℕ
  pub payload : Bytes

-- The layers found; of a DNS layer what `protos.ParseDNS` makes of it.
pub record Layers : Type 0 where
  pub udp : Option Segment
  pub tcp : Option Segment
  pub dns : Option (Option Bytes)

-- "CSeq" and "Cseq"
abbrev pub c_seq : Bytes
c_seq = 67 ∷ 83 ∷ 101 ∷ 113 ∷ []

abbrev pub c_seq_lower : Bytes
c_seq_lower = 67 ∷ 115 ∷ 101 ∷ 113 ∷ []

-- `bytes.Contains`
abbrev pub contains : Bytes → Bytes → Bool
contains pattern s = is_some (index pattern s)

abbrev pub nil_bytes : Option Bytes → Bytes
nil_bytes none = []
nil_bytes (some b) = b

module _ (cache : Cache) (ip_string : Bytes → Bytes) (rtcp_json : RtcpPacket → Option Bytes)
    (ng_json : Value → Option Bytes) where
  open cache use {Store}

  pub record Decoder : Type 0 where
    pub stats : Stats
    pub sip : Store
    pub sdp : Store
    pub rtcp : Store

  -- The packet to send, if any, and the decoder afterwards.
  abbrev pub Step : Type 0
  Step = Outcome ⊥ (Option Packet × Decoder)

  abbrev pub with_reply : Reply → Packet → Packet
  with_reply r p = record p { payload = r.payload; cid = r.cid; proto_type = r.proto_type }

  unfoldable pub finish_payload : Packet → Decoder → Step
  finish_payload p d =
      let body = nil_bytes p.payload in
      let p1 = record p {
        proto_type = if contains c_seq body || contains c_seq_lower body then 1 else p.proto_type;
      } in
      if is_some p.payload
      then ok (some p1, d)
      else ok (
        none,
        record d { stats = record (d.stats) { unknown_count = d.stats.unknown_count + 1 } },
      )

  unfoldable pub process_dns : Option (Option Bytes) → Packet → Decoder → Step
  process_dns none p d = finish_payload p d
  process_dns (some parsed) p d =
      finish_payload (record p { proto_type = 53; payload = parsed })
        (record d { stats = record (d.stats) { dns_count = d.stats.dns_count + 1 } })

  unfoldable pub process_log : Bytes → Packet → Decoder → Step
  process_log payload p d =
      let r = correlate_log payload in
      if is_some r.payload && is_some r.cid then ok (some (with_reply r p), d) else ok (none, d)

  unfoldable pub process_ng : Bytes → Bytes → Packet → Decoder → Step
  process_ng spare payload p d = elim (correlate_ng cache ng_json spare payload d.sip) [
    | ok (r, sip') ↦
        let d1 = record d { sip = sip' } in
        if is_some r.payload then ok (some (with_reply r p), d1) else ok (none, d1)
    | err e ↦ err e
    | panic ↦ panic
    | stuck ↦ stuck
  ]

  unfoldable pub process_rtcp : Bytes → Packet → Decoder → Step
  process_rtcp payload p d =
      elim (correlate_rtcp cache rtcp_json (ip_string (nil_bytes p.src_ip)) p.src_port payload d.sdp
        d.rtcp) [
          | ok (r, rtcp') ↦
              let sent = record d {
                rtcp = rtcp';
                stats = record (d.stats) { rtcp_count = d.stats.rtcp_count + 1 };
              } in
              let failed = record d {
                rtcp = rtcp';
                stats = record (d.stats) { rtcp_fail_count = d.stats.rtcp_fail_count + 1 };
              } in
              if is_some r.payload then ok (some (with_reply r p), sent) else ok (none, failed)
          | err e ↦ err e
          | panic ↦ panic
          | stuck ↦ stuck
        ]

  -- The tests on the first two bytes, whose index may be out of range.
  unfoldable pub process_media : Segment → Option (Option Bytes) → Packet → Decoder → Step
  process_media seg dns p d =
      let odd = not (seg.src_port % 2 == 0) && not (seg.dst_port % 2 == 0) in
      let even = seg.src_port % 2 == 0 && seg.dst_port % 2 == 0 in
      let rtcp_step = process_rtcp seg.payload p d in
      let dns_step = process_dns dns p d in
      elim seg.payload [
        | [] ↦ panic
        | b0 ∷ [] ↦ if bit_and b0 0xc0 / 64 == 2 then panic else dns_step
        | b0 ∷ b1 ∷ _ ↦
            if bit_and b0 0xc0 / 64 == 2
            then if (b1 == 200 || b1 == 201 || b1 == 207) && odd
              then rtcp_step
              else if even
              then ok (none, d)
              else dns_step
            else dns_step
      ]

  unfoldable pub process_udp :
      Mode → Bytes → Segment → Option (Option Bytes) → Packet → Decoder → Step
  process_udp mode spare seg dns p d =
      let p1 = record p {
        src_port = seg.src_port;
        dst_port = seg.dst_port;
        payload = some seg.payload;
      } in
      let d1 = record d { stats = record (d.stats) { udp_count = d.stats.udp_count + 1 } } in
      if is_sip_log mode && seg.dst_port == 514
      then process_log seg.payload p1 d1
      else if is_sip_log mode && (seg.src_port == 2223 || seg.dst_port == 2223)
      then process_ng spare seg.payload p1 d1
      else if is_sip_only mode
      then process_dns dns p1 d1
      else process_media seg dns p1 (record d1 { sdp = cache_sdp_ip_port cache seg.payload d.sdp })

  unfoldable pub process_tcp : Mode → Segment → Option (Option Bytes) → Packet → Decoder → Step
  process_tcp mode seg dns p d =
      let p1 = record p {
        src_port = seg.src_port;
        dst_port = seg.dst_port;
        payload = some seg.payload;
      } in
      let d1 = record d { stats = record (d.stats) { tcp_count = d.stats.tcp_count + 1 } } in
      if is_sip_log mode && seg.dst_port == 514
      then process_log seg.payload p1 d1
      else if is_sip_only mode
      then process_dns dns p1 d1
      else process_dns dns p1 (record d1 { sdp = cache_sdp_ip_port cache seg.payload d.sdp })

  -- `spare` is what lies behind a UDP payload in its array.
  unfoldable pub process_transport : Mode → Bytes → Layers → Packet → Decoder → Step
  process_transport mode spare layers p d = elim layers.udp [
    | some seg ↦ process_udp mode spare seg layers.dns p d
    | none ↦ elim layers.tcp [
      | some seg ↦ process_tcp mode seg layers.dns p d
      | none ↦ process_dns layers.dns p d
    ]
  ]
