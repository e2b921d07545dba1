-- ===== src/Decoder/Process/Calls.antt =====
-- decoder/decoder.go: the RTCP of a call, after the SIP message that announced it.
use heplify.Common.{
  ℕ, ◌+◌, ◌%◌, ◌/◌, bit_and, ◌≡◌, refl, true, false, ◌||◌, ◌∷◌, ◌++◌, Option, none, some, ◌==◌, ok,
  ==_of_ne, ap, ◌∙◌, arith,
}
use heplify.Common.Bytes.{Bytes}
use heplify.Publish.Hep.{Packet}
use heplify.Protos.Rtcp.Packet.{RtcpPacket}
use heplify.Protos.Rtcp.Parse.{Parsed, parse_rtcp}
use heplify.Decoder.Ng.{Value}
use heplify.Decoder.Ng.Numbers.{decimal}
use heplify.Decoder.Correlator.Cache.{Cache, KeepsSet}
use heplify.Decoder.Correlator.Sdp.{sdp_entry, cache_sdp_ip_port}
use heplify.Decoder.Correlator.Rtcp.{Reply, is_some, correlate_rtcp}
use heplify.Decoder.Correlator.Dialog.{correlate_rtcp-cache_sdp_ip_port}
use heplify.Decoder.Process.Payload.{
  all_protocols, nil_bytes, Decoder, finish_payload, process_dns, process_rtcp, process_media,
  process_udp, process_tcp, process_transport,
}

module _ (cache : Cache) (ip_string : Bytes → Bytes) (rtcp_json : RtcpPacket → Option Bytes)
    (ng_json : Value → Option Bytes) where
  -- After a SIP message over TCP only the SDP cache and a counter differ.
  abbrev pub after_message :
      Bytes → Decoder cache ip_string rtcp_json ng_json → Decoder cache ip_string rtcp_json ng_json
  after_message message d = record d {
    sdp = cache_sdp_ip_port cache message d.sdp;
    stats = record (d.stats) { tcp_count = d.stats.tcp_count + 1 };
  }

  process_transport-message :
      (spare message : Bytes) (src dst : ℕ) (p : Packet)
      (d : Decoder cache ip_string rtcp_json ng_json)
      → (q : Packet) × (process_transport cache ip_string rtcp_json ng_json all_protocols spare
            (record {
              udp = none;
              tcp = some (record { src_port = src; dst_port = dst; payload = message });
              dns = none;
            })
            p
            d
          ≡ ok (some q, after_message message d))
        × (q.payload ≡ some message)
  unfolding process_transport process_tcp process_dns finish_payload
  process_transport-message spare message src dst p d = (_, refl, refl)

  abbrev pub after_rtcp :
      cache.Store
      → Decoder cache ip_string rtcp_json ng_json
      → Decoder cache ip_string rtcp_json ng_json
  after_rtcp rtcp' d = record d {
    rtcp = rtcp';
    stats = record (d.stats) {
      udp_count = d.stats.udp_count + 1;
      rtcp_count = d.stats.rtcp_count + 1;
    };
  }

  cache_sdp_ip_port-none :
      (payload : Bytes) (sdp : cache.Store)
      → sdp_entry payload ≡ none
      → cache_sdp_ip_port cache payload sdp ≡ sdp
  unfolding cache_sdp_ip_port
  cache_sdp_ip_port-none payload sdp plain = rw (cache_sdp_ip_port, plain)

  -- A packet with RTCP's first two bytes between odd ports is correlated.
  process_transport-rtcp :
      (spare : Bytes) (b0 b1 : ℕ) (rest : Bytes) (port dst : ℕ) (p : Packet)
      (d : Decoder cache ip_string rtcp_json ng_json) (r : Reply) (rtcp' : cache.Store)
      → bit_and b0 0xc0 / 64 ≡ 2
      → (b1 == 200 || b1 == 201 || b1 == 207) ≡ true
      → (port % 2 ≡ 1) × (dst % 2 ≡ 1)
      → sdp_entry (b0 ∷ b1 ∷ rest) ≡ none
      → correlate_rtcp cache rtcp_json
          (ip_string (nil_bytes p.src_ip))
          port
          (b0 ∷ b1 ∷ rest)
          d.sdp
          d.rtcp
        ≡ ok (r, rtcp')
      → is_some r.payload ≡ true
      → process_transport cache ip_string rtcp_json ng_json all_protocols spare
          (record {
            udp = some (record { src_port = port; dst_port = dst; payload = b0 ∷ b1 ∷ rest });
            tcp = none;
            dns = none;
          })
          p
          d
        ≡ ok (
          some (record p {
            src_port = port;
            dst_port = dst;
            payload = r.payload;
            cid = r.cid;
            proto_type = r.proto_type;
          }),
          after_rtcp rtcp' d,
        )
  unfolding process_transport process_udp process_media process_rtcp
  process_transport-rtcp spare b0 b1 rest port dst p d r rtcp' version type (odd, odd') plain
        answered sent =
      let even : (port % 2 == 0) ≡ false = ==_of_ne (port % 2) 0 (λ e. omega arith) in
      let even' : (dst % 2 == 0) ≡ false = ==_of_ne (dst % 2) 0 (λ e. omega arith) in
      let kept = cache_sdp_ip_port-none (b0 ∷ b1 ∷ rest) d.sdp plain in
      rw (version, type, even, even', process_rtcp, kept, answered, sent, kept)

  -- Where the mode covers all protocols: after a SIP message over TCP whose SDP announced an address and
  -- an odd port, the first RTCP packet of a new SSRC that comes from there to an odd port is handed on
  -- with the Call-ID of the message and the parsed RTCP as payload.
  pub process_transport-call :
      (spare message ip : Bytes) (port dst : ℕ) (call_id k b : Bytes) (b0 b1 : ℕ) (rest : Bytes)
      (parsed : Parsed) (src dst_tcp : ℕ) (p q : Packet)
      (d : Decoder cache ip_string rtcp_json ng_json) (sdp' rtcp' : cache.Store)
      → KeepsSet cache
      → sdp_entry message ≡ some (ip ++ decimal port, call_id)
      → cache.set (ip ++ decimal port) call_id 120 d.sdp ≡ some sdp'
      → ip_string (nil_bytes q.src_ip) ≡ ip
      → bit_and b0 0xc0 / 64 ≡ 2
      → (b1 == 200 || b1 == 201 || b1 == 207) ≡ true
      → (port % 2 ≡ 1) × (dst % 2 ≡ 1)
      → sdp_entry (b0 ∷ b1 ∷ rest) ≡ none
      → parse_rtcp rtcp_json (b0 ∷ b1 ∷ rest) ≡ ok parsed
      → parsed.ssrc_bytes ≡ some k
      → parsed.rtcp_pkt ≡ some b
      → cache.get k d.rtcp ≡ none
      → cache.set k call_id 43200 d.rtcp ≡ some rtcp'
      → (sent : Packet) × (d1 : Decoder cache ip_string rtcp_json ng_json) × (process_transport
            cache ip_string rtcp_json ng_json all_protocols spare
            (record {
              udp = none;
              tcp = some (record { src_port = src; dst_port = dst_tcp; payload = message });
              dns = none;
            })
            p
            d
          ≡ ok (some sent, d1))
        × (process_transport cache ip_string rtcp_json ng_json all_protocols spare
              (record {
                udp = some (record { src_port = port; dst_port = dst; payload = b0 ∷ b1 ∷ rest });
                tcp = none;
                dns = none;
              })
              q
              d1
            ≡ ok (
              some (record q {
                src_port = port;
                dst_port = dst;
                payload = some b;
                cid = some call_id;
                proto_type = 5;
              }),
              after_rtcp rtcp' d1,
            ))
  process_transport-call spare message ip port dst call_id k b b0 b1 rest parsed src dst_tcp p q d
        sdp' rtcp' keeps announced kept from version type odd plain parses ssrc some_json unknown
        learnt =
      let (sent, handed, same) = process_transport-message spare message src dst_tcp p d in
      let answered =
        ap
          (λ a.
            correlate_rtcp cache rtcp_json a port (b0 ∷ b1 ∷ rest)
              (cache_sdp_ip_port cache message d.sdp) d.rtcp)
          from
        ∙ correlate_rtcp-cache_sdp_ip_port cache keeps rtcp_json message ip port call_id
            (b0 ∷ b1 ∷ rest) k b parsed d.sdp sdp' d.rtcp rtcp' announced kept parses ssrc some_json
            unknown learnt in
      (
        sent,
        after_message message d,
        handed,
        process_transport-rtcp spare b0 b1 rest port dst q (after_message message d)
            (record { payload = some b; cid = some call_id; proto_type = 5 }) rtcp' version type odd
            plain answered refl,
      )
