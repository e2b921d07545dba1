-- ===== src/Decoder/Process/Ends.antt =====
-- decoder/decoder.go: the part of `Process` behind the network layer ends.
use heplify.Common.{
  ℕ, ◌%◌, [], ◌∷◌, Option, none, some, Option-cases, ◌==◌, ◌&&◌, ◌||◌, not, bit_and, ◌/◌, inl, inr,
}
use heplify.Common.Bytes.{Bytes}
use heplify.Common.Gives.{returns, fails, panics, Gives-if, Gives-cases, Ends}
use heplify.Publish.Hep.{Packet}
use heplify.Protos.Rtcp.Packet.{RtcpPacket}
use heplify.Decoder.Ng.{Value}
use heplify.Decoder.Correlator.Cache.{Cache}
use heplify.Decoder.Correlator.Rtcp.{is_some}
use heplify.Decoder.Correlator.Log.{correlate_log}
use heplify.Decoder.Process.Payload.{
  Mode, is_sip_log, is_sip_only, Segment, Layers, Decoder, finish_payload, process_dns, process_log,
  process_ng, process_rtcp, process_media, process_udp, process_tcp, process_transport, nil_bytes,
}
use heplify.Decoder.Correlator.Ends.{correlate_ng-Ends, correlate_rtcp-Ends}

module _ (cache : Cache) (ip_string : Bytes → Bytes) (rtcp_json : RtcpPacket → Option Bytes)
    (ng_json : Value → Option Bytes) where
  abbrev Inside : Type 0
  Inside = Decoder cache ip_string rtcp_json ng_json

  finish_payload-Ends :
      (p : Packet) (d : Inside) → Ends (finish_payload cache ip_string rtcp_json ng_json p d)
  unfolding finish_payload
  finish_payload-Ends p d = Gives-if (is_some p.payload) (λ e. returns tt) (λ e. returns tt)

  process_dns-Ends :
      (dns : Option (Option Bytes)) (p : Packet) (d : Inside)
      → Ends (process_dns cache ip_string rtcp_json ng_json dns p d)
  unfolding process_dns
  process_dns-Ends none p d = finish_payload-Ends p d
  process_dns-Ends (some parsed) p d = finish_payload-Ends _ _

  process_log-Ends :
      (payload : Bytes) (p : Packet) (d : Inside)
      → Ends (process_log cache ip_string rtcp_json ng_json payload p d)
  unfolding process_log
  process_log-Ends payload p d =
      Gives-if (is_some (correlate_log payload).payload && is_some (correlate_log payload).cid)
        (λ e. returns tt) (λ e. returns tt)

  process_ng-Ends :
      (spare payload : Bytes) (p : Packet) (d : Inside)
      → Ends (process_ng cache ip_string rtcp_json ng_json spare payload p d)
  unfolding process_ng
  process_ng-Ends spare payload p d =
      elim (Gives-cases (correlate_ng-Ends cache ng_json spare payload d.sip)) [
        | inl ((r, sip'), e, u) ↦
            rw (process_ng, e) (Gives-if (is_some r.payload) (λ e. returns tt) (λ e. returns tt))
        | inr (inl (x, e)) ↦ rw (process_ng, e) fails
        | inr (inr e) ↦ rw (process_ng, e) panics
      ]

  process_rtcp-Ends :
      (payload : Bytes) (p : Packet) (d : Inside)
      → Ends (process_rtcp cache ip_string rtcp_json ng_json payload p d)
  unfolding process_rtcp
  process_rtcp-Ends payload p d =
      elim (Gives-cases (
        correlate_rtcp-Ends cache rtcp_json (ip_string (nil_bytes p.src_ip)) p.src_port payload
          d.sdp d.rtcp)) [
            | inl ((r, rtcp'), e, u) ↦
                rw (process_rtcp, e)
                  (Gives-if (is_some r.payload) (λ e. returns tt) (λ e. returns tt))
            | inr (inl (x, e)) ↦ rw (process_rtcp, e) fails
            | inr (inr e) ↦ rw (process_rtcp, e) panics
          ]

  media-Ends :
      (bytes : Bytes) (src dst : ℕ) (dns : Option (Option Bytes)) (p : Packet) (d : Inside)
      → Ends (
          process_media cache ip_string rtcp_json ng_json
            (record { src_port = src; dst_port = dst; payload = bytes })
            dns
            p
            d)
  unfolding process_media
  media-Ends [] src dst dns p d = panics
  media-Ends (b0 ∷ []) src dst dns p d =
      Gives-if (bit_and b0 0xc0 / 64 == 2) (λ e. panics) (λ e. process_dns-Ends dns p d)
  media-Ends (b0 ∷ b1 ∷ bs) src dst dns p d =
      Gives-if (bit_and b0 0xc0 / 64 == 2)
        (λ e.
          Gives-if
            ((b1 == 200 || b1 == 201 || b1 == 207) && (not (src % 2 == 0) && not (dst % 2 == 0)))
            (λ e. process_rtcp-Ends _ p d)
            (λ e.
              Gives-if (src % 2 == 0 && dst % 2 == 0) (λ e. returns tt)
                (λ e. process_dns-Ends dns p d)))
        (λ e. process_dns-Ends dns p d)

  process_udp-Ends :
      (mode : Mode) (spare : Bytes) (seg : Segment) (dns : Option (Option Bytes)) (p : Packet)
      (d : Inside)
      → Ends (process_udp cache ip_string rtcp_json ng_json mode spare seg dns p d)
  unfolding process_udp
  process_udp-Ends mode spare seg dns p d =
      Gives-if (is_sip_log mode && seg.dst_port == 514) (λ e. process_log-Ends seg.payload _ _)
        (λ e.
          Gives-if (is_sip_log mode && (seg.src_port == 2223 || seg.dst_port == 2223))
            (λ e. process_ng-Ends spare seg.payload _ _)
            (λ e.
              Gives-if (is_sip_only mode) (λ e. process_dns-Ends dns _ _)
                (λ e. media-Ends seg.payload seg.src_port seg.dst_port dns _ _)))

  process_tcp-Ends :
      (mode : Mode) (seg : Segment) (dns : Option (Option Bytes)) (p : Packet) (d : Inside)
      → Ends (process_tcp cache ip_string rtcp_json ng_json mode seg dns p d)
  unfolding process_tcp
  process_tcp-Ends mode seg dns p d =
      Gives-if (is_sip_log mode && seg.dst_port == 514) (λ e. process_log-Ends seg.payload _ _)
        (λ e.
          Gives-if (is_sip_only mode) (λ e. process_dns-Ends dns _ _)
            (λ e. process_dns-Ends dns _ _))

  pub process_transport-Ends :
      (mode : Mode) (spare : Bytes) (layers : Layers) (p : Packet) (d : Inside)
      → Ends (process_transport cache ip_string rtcp_json ng_json mode spare layers p d)
  unfolding process_transport
  process_transport-Ends mode spare layers p d = elim (Option-cases layers.udp) [
    | inr (seg, e) ↦ rw (process_transport, e) (process_udp-Ends mode spare seg layers.dns p d)
    | inl e ↦ elim (Option-cases layers.tcp) [
      | inr (seg, e') ↦ rw (process_transport, e, e') (process_tcp-Ends mode seg layers.dns p d)
      | inl e' ↦ rw (process_transport, e, e') (process_dns-Ends layers.dns p d)
    ]
  ]
