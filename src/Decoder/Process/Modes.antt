-- ===== src/Decoder/Process/Modes.antt =====
-- decoder/decoder.go: what `Process` hands on, and RTCP after the SDP that announced it.
use heplify.Common.{
  ℕ, ◌+◌, ◌%◌, ◌/◌, bit_and, ◌≡◌, refl, Bool, true, false, ◌&&◌, ◌||◌, not, [], ◌∷◌, Option, none,
  some, ◌==◌, if◌then◌else◌, Outcome, ok, err, panic, stuck, ◌⊎◌, inl, inr,
}
use heplify.Common.Bytes.{Bytes}
use heplify.Publish.Hep.{Packet}
use heplify.Protos.Rtcp.Packet.{RtcpPacket}
use heplify.Decoder.Ng.{Value}
use heplify.Decoder.Correlator.Cache.{Cache}
use heplify.Decoder.Correlator.Rtcp.{is_some, correlate_rtcp}
use heplify.Decoder.Correlator.Log.{correlate_log, correlate_ng}
use heplify.Decoder.Process.Payload.{
  Mode, all_protocols, is_sip_log, is_sip_only, Segment, nil_bytes, Decoder, Step, with_reply,
  finish_payload, process_dns, process_log, process_ng, process_rtcp, process_media, process_udp,
  process_tcp, process_transport,
}

-- The fields that come from the capture and the network layer are the same.
abbrev pub IsFrom : Packet → Packet → Type 0
IsFrom p q =
    (q.version ≡ p.version)
    × (q.protocol ≡ p.protocol)
    × (q.src_ip ≡ p.src_ip)
    × (q.dst_ip ≡ p.dst_ip)
    × (q.tsec ≡ p.tsec)
    × (q.tmsec ≡ p.tmsec)
    × (q.node_id ≡ p.node_id)
    × (q.node_pw ≡ p.node_pw)
    × (q.vlan ≡ p.vlan)

pub Outcome-cases {ℓ} :
    {A : Type ℓ} (o : Outcome ⊥ A) → ((a : A) × (o ≡ ok a)) ⊎ ((o ≡ panic) ⊎ (o ≡ stuck))
Outcome-cases (ok a) = inl (a, refl)
Outcome-cases (err e) = absurd e
Outcome-cases panic = inr (inl refl)
Outcome-cases stuck = inr (inr refl)

and_left : (x y : Bool) → (x && y) ≡ true → x ≡ true
and_left true y e = refl
and_left false y e = e

module _ (cache : Cache) (ip_string : Bytes → Bytes) (rtcp_json : RtcpPacket → Option Bytes)
    (ng_json : Value → Option Bytes) where
  -- A packet that is handed on has a payload, and the fields it came with.
  abbrev pub Sends : Packet → Step cache ip_string rtcp_json ng_json → Type 0
  Sends p (ok (some q, d)) = (is_some q.payload ≡ true) × IsFrom p q
  Sends p o = Unit

  chosen :
      (p : Packet) (b : Bool) (x y : Step cache ip_string rtcp_json ng_json)
      → (b ≡ true → Sends p x)
      → Sends p y
      → Sends p (if b then x else y)
  chosen p true x y hx hy = hx refl
  chosen p false x y hx hy = hy

  finish_payload-Sends :
      (p q : Packet) (d : Decoder cache ip_string rtcp_json ng_json)
      → IsFrom p q
      → Sends p (finish_payload cache ip_string rtcp_json ng_json q d)
  unfolding finish_payload
  finish_payload-Sends p q d h = chosen p (is_some q.payload) (ok _) (ok _) (λ e. (e, h)) tt

  process_dns-Sends :
      (p q : Packet) (dns : Option (Option Bytes)) (d : Decoder cache ip_string rtcp_json ng_json)
      → IsFrom p q
      → Sends p (process_dns cache ip_string rtcp_json ng_json dns q d)
  unfolding process_dns
  process_dns-Sends p q none d h = finish_payload-Sends p q d h
  process_dns-Sends p q (some parsed) d h =
      finish_payload-Sends p (record q { proto_type = 53; payload = parsed }) _ h

  process_log-Sends :
      (p q : Packet) (payload : Bytes) (d : Decoder cache ip_string rtcp_json ng_json)
      → IsFrom p q
      → Sends p (process_log cache ip_string rtcp_json ng_json payload q d)
  unfolding process_log
  process_log-Sends p q payload d h =
      let r = correlate_log payload in
      chosen p (is_some r.payload && is_some r.cid)
        (ok (some (with_reply cache ip_string rtcp_json ng_json r q), d)) (ok _)
        (λ e. (and_left (is_some r.payload) (is_some r.cid) e, h)) tt

  process_ng-Sends :
      (p q : Packet) (spare payload : Bytes) (d : Decoder cache ip_string rtcp_json ng_json)
      → IsFrom p q
      → Sends p (process_ng cache ip_string rtcp_json ng_json spare payload q d)
  unfolding process_ng
  process_ng-Sends p q spare payload d h =
      elim (Outcome-cases (correlate_ng cache ng_json spare payload d.sip)) [
        | inl ((r, sip'), e) ↦
            rw (process_ng, e)
              (chosen p (is_some r.payload)
                (ok (
                  some (with_reply cache ip_string rtcp_json ng_json r q),
                  record d { sip = sip' },
                ))
                (ok _) (λ t. (t, h)) tt)
        | inr (inl e) ↦ rw (process_ng, e) tt
        | inr (inr e) ↦ rw (process_ng, e) tt
      ]

  process_rtcp-Sends :
      (p q : Packet) (payload : Bytes) (d : Decoder cache ip_string rtcp_json ng_json)
      → IsFrom p q
      → Sends p (process_rtcp cache ip_string rtcp_json ng_json payload q d)
  unfolding process_rtcp
  process_rtcp-Sends p q payload d h =
      elim (Outcome-cases (
        correlate_rtcp cache rtcp_json (ip_string (nil_bytes q.src_ip)) q.src_port payload d.sdp
          d.rtcp)) [
            | inl ((r, rtcp'), e) ↦
                rw (process_rtcp, e)
                  (chosen p (is_some r.payload)
                    (ok (
                      some (with_reply cache ip_string rtcp_json ng_json r q),
                      record d {
                        rtcp = rtcp';
                        stats = record (d.stats) { rtcp_count = d.stats.rtcp_count + 1 };
                      },
                    ))
                    (ok _) (λ t. (t, h)) tt)
            | inr (inl e) ↦ rw (process_rtcp, e) tt
            | inr (inr e) ↦ rw (process_rtcp, e) tt
          ]

  either :
      (p : Packet) (b : Bool) (x y : Step cache ip_string rtcp_json ng_json)
      → Sends p x
      → Sends p y
      → Sends p (if b then x else y)
  either p b x y hx hy = chosen p b x y (λ e. hx) hy

  media_bytes-Sends :
      (p q : Packet) (src dst : ℕ) (bytes : Bytes) (dns : Option (Option Bytes))
      (d : Decoder cache ip_string rtcp_json ng_json)
      → IsFrom p q
      → Sends p (
          process_media cache ip_string rtcp_json ng_json
            (record { src_port = src; dst_port = dst; payload = bytes })
            dns
            q
            d)
  unfolding process_media
  media_bytes-Sends p q src dst [] dns d h = tt
  media_bytes-Sends p q src dst (b0 ∷ []) dns d h =
      either p (bit_and b0 0xc0 / 64 == 2) panic _ tt (process_dns-Sends p q dns d h)
  media_bytes-Sends p q src dst (b0 ∷ b1 ∷ rest) dns d h =
      either p (bit_and b0 0xc0 / 64 == 2) _ _
        (either p
          ((b1 == 200 || b1 == 201 || b1 == 207) && (not (src % 2 == 0) && not (dst % 2 == 0))) _ _
          (process_rtcp-Sends p q (b0 ∷ b1 ∷ rest) d h)
          (either p (src % 2 == 0 && dst % 2 == 0) (ok (none, d)) _ tt
            (process_dns-Sends p q dns d h)))
        (process_dns-Sends p q dns d h)

  process_udp-Sends :
      (mode : Mode) (p : Packet) (spare : Bytes) (seg : Segment) (dns : Option (Option Bytes))
      (d : Decoder cache ip_string rtcp_json ng_json)
      → Sends p (process_udp cache ip_string rtcp_json ng_json mode spare seg dns p d)
  unfolding process_udp
  process_udp-Sends mode p spare seg dns d =
      let q = record p {
        src_port = seg.src_port;
        dst_port = seg.dst_port;
        payload = some seg.payload;
      } in
      let same : IsFrom p q = (refl, refl, refl, refl, refl, refl, refl, refl, refl) in
      either p (is_sip_log mode && seg.dst_port == 514) _ _
        (process_log-Sends p q seg.payload _ same)
        (either p (is_sip_log mode && (seg.src_port == 2223 || seg.dst_port == 2223)) _ _
          (process_ng-Sends p q spare seg.payload _ same)
          (either p (is_sip_only mode) _ _ (process_dns-Sends p q dns _ same)
            (media_bytes-Sends p q seg.src_port seg.dst_port seg.payload dns _ same)))

  process_tcp-Sends :
      (mode : Mode) (p : Packet) (seg : Segment) (dns : Option (Option Bytes))
      (d : Decoder cache ip_string rtcp_json ng_json)
      → Sends p (process_tcp cache ip_string rtcp_json ng_json mode seg dns p d)
  unfolding process_tcp
  process_tcp-Sends mode p seg dns d =
      let q = record p {
        src_port = seg.src_port;
        dst_port = seg.dst_port;
        payload = some seg.payload;
      } in
      let same : IsFrom p q = (refl, refl, refl, refl, refl, refl, refl, refl, refl) in
      either p (is_sip_log mode && seg.dst_port == 514) _ _
        (process_log-Sends p q seg.payload _ same)
        (either p (is_sip_only mode) _ _ (process_dns-Sends p q dns _ same)
          (process_dns-Sends p q dns _ same))

  -- Whatever the mode and the layers, a packet that `Process` hands on has a payload, and its version,
  -- protocol, addresses, times, node and VLAN are those that the capture and the network layer gave.
  pub process_transport-Sends :
      (mode : Mode) (spare : Bytes) (udp tcp : Option Segment) (dns : Option (Option Bytes))
      (p : Packet) (d : Decoder cache ip_string rtcp_json ng_json)
      → Sends p (
          process_transport cache ip_string rtcp_json ng_json mode spare
            (record { udp = udp; tcp = tcp; dns = dns })
            p
            d)
  unfolding process_transport
  process_transport-Sends mode spare (some seg) tcp dns p d =
      process_udp-Sends mode p spare seg dns d
  process_transport-Sends mode spare none (some seg) dns p d = process_tcp-Sends mode p seg dns d
  process_transport-Sends mode spare none none dns p d =
      process_dns-Sends p p dns d (refl, refl, refl, refl, refl, refl, refl, refl, refl)

  -- Where the mode covers all protocols, an empty UDP datagram makes `Process` panic.
  pub process_transport_empty :
      (spare : Bytes) (src dst : ℕ) (tcp : Option Segment) (dns : Option (Option Bytes))
      (p : Packet) (d : Decoder cache ip_string rtcp_json ng_json)
      → process_transport cache ip_string rtcp_json ng_json all_protocols spare
          (record {
            udp = some (record { src_port = src; dst_port = dst; payload = [] });
            tcp = tcp;
            dns = dns;
          })
          p
          d
        ≡ panic
  unfolding process_transport process_udp process_media
  process_transport_empty spare src dst tcp dns p d = refl
