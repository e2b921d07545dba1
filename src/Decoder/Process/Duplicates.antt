-- ===== src/Decoder/Process/Duplicates.antt =====
-- decoder/decoder.go: outside of the mode SIPLOG, `Process` leaves the SIP cache alone behind its tests.
use heplify.Common.{
  ℕ, ◌%◌, ◌/◌, bit_and, ◌≡◌, Bool, true, false, not, ◌&&◌, ◌||◌, [], ◌∷◌, Option, none, some, ◌==◌,
  if◌then◌else◌, ok, panic, inl, inr,
}
use heplify.Common.Bytes.{Bytes}
use heplify.Publish.Hep.{Packet}
use heplify.Decoder.Correlator.Rtcp.{is_some, correlate_rtcp}
use heplify.Decoder.Process.Payload.{
  Mode, sip_only, sip_log, all_protocols, is_sip_log, Segment, nil_bytes, Step, finish_payload,
  process_dns, process_rtcp, process_media, process_udp, process_tcp, process_transport,
}
use heplify.Decoder.Process.Modes.{Outcome-cases}
use heplify.Decoder.Process.Capture.{Outside, Inner}

module _ (o : Outside) where
  open o use {cache, ip_string, rtcp_json, ng_json, gp}

  -- The SIP cache afterwards, where the step returns.
  abbrev pub StepKeeps : cache.Store → Step cache ip_string rtcp_json ng_json → Type 0
  StepKeeps s (ok (q, d)) = d.sip ≡ s
  StepKeeps s r = Unit

  either :
      (s : cache.Store) (b : Bool) (x y : Step cache ip_string rtcp_json ng_json)
      → StepKeeps s x
      → StepKeeps s y
      → StepKeeps s (if b then x else y)
  either s true x y h k = h
  either s false x y h k = k

  process_dns-StepKeeps :
      (s : cache.Store) (dns : Option (Option Bytes)) (p : Packet) (d : Inner o)
      → d.sip ≡ s
      → StepKeeps s (process_dns cache ip_string rtcp_json ng_json dns p d)
  unfolding process_dns finish_payload
  process_dns-StepKeeps s none p d h = either s (is_some p.payload) _ _ h h
  process_dns-StepKeeps s (some parsed) p d h = either s (is_some parsed) _ _ h h

  process_rtcp-StepKeeps :
      (s : cache.Store) (payload : Bytes) (p : Packet) (d : Inner o)
      → d.sip ≡ s
      → StepKeeps s (process_rtcp cache ip_string rtcp_json ng_json payload p d)
  unfolding process_rtcp
  process_rtcp-StepKeeps s payload p d h =
      elim (Outcome-cases (
        correlate_rtcp cache rtcp_json (ip_string (nil_bytes p.src_ip)) p.src_port payload d.sdp
          d.rtcp)) [
            | inl ((r, rtcp'), e) ↦
                rw (process_rtcp, e) (either s (is_some r.payload) (ok _) (ok _) h h)
            | inr (inl e) ↦ rw (process_rtcp, e) tt
            | inr (inr e) ↦ rw (process_rtcp, e) tt
          ]

  media_bytes-StepKeeps :
      (s : cache.Store) (src dst : ℕ) (bytes : Bytes) (dns : Option (Option Bytes)) (p : Packet)
      (d : Inner o)
      → d.sip ≡ s
      → StepKeeps s (
          process_media cache ip_string rtcp_json ng_json
            (record { src_port = src; dst_port = dst; payload = bytes })
            dns
            p
            d)
  unfolding process_media
  media_bytes-StepKeeps s src dst [] dns p d h = tt
  media_bytes-StepKeeps s src dst (b0 ∷ []) dns p d h =
      either s (bit_and b0 0xc0 / 64 == 2) panic _ tt (process_dns-StepKeeps s dns p d h)
  media_bytes-StepKeeps s src dst (b0 ∷ b1 ∷ rest) dns p d h =
      either s (bit_and b0 0xc0 / 64 == 2) _ _
        (either s
          ((b1 == 200 || b1 == 201 || b1 == 207) && (not (src % 2 == 0) && not (dst % 2 == 0))) _ _
          (process_rtcp-StepKeeps s (b0 ∷ b1 ∷ rest) p d h)
          (either s (src % 2 == 0 && dst % 2 == 0) (ok (none, d)) _ h
            (process_dns-StepKeeps s dns p d h)))
        (process_dns-StepKeeps s dns p d h)

  process_udp-StepKeeps :
      (s : cache.Store) (mode : Mode) (spare : Bytes) (seg : Segment) (dns : Option (Option Bytes))
      (p : Packet) (d : Inner o)
      → is_sip_log mode ≡ false
      → d.sip ≡ s
      → StepKeeps s (process_udp cache ip_string rtcp_json ng_json mode spare seg dns p d)
  unfolding process_udp
  process_udp-StepKeeps s sip_only spare seg dns p d m h = process_dns-StepKeeps s dns _ _ h
  process_udp-StepKeeps s sip_log spare seg dns p d m h = cc
  process_udp-StepKeeps s all_protocols spare seg dns p d m h =
      media_bytes-StepKeeps s seg.src_port seg.dst_port seg.payload dns _ _ h

  process_tcp-StepKeeps :
      (s : cache.Store) (mode : Mode) (seg : Segment) (dns : Option (Option Bytes)) (p : Packet)
      (d : Inner o)
      → is_sip_log mode ≡ false
      → d.sip ≡ s
      → StepKeeps s (process_tcp cache ip_string rtcp_json ng_json mode seg dns p d)
  unfolding process_tcp
  process_tcp-StepKeeps s sip_only seg dns p d m h = process_dns-StepKeeps s dns _ _ h
  process_tcp-StepKeeps s sip_log seg dns p d m h = cc
  process_tcp-StepKeeps s all_protocols seg dns p d m h = process_dns-StepKeeps s dns _ _ h

  pub transport-StepKeeps :
      (s : cache.Store) (mode : Mode) (spare : Bytes) (udp tcp : Option Segment)
      (dns : Option (Option Bytes)) (p : Packet) (d : Inner o)
      → is_sip_log mode ≡ false
      → d.sip ≡ s
      → StepKeeps s (
          process_transport cache ip_string rtcp_json ng_json mode spare
            (record { udp = udp; tcp = tcp; dns = dns })
            p
            d)
  unfolding process_transport
  transport-StepKeeps s mode spare (some seg) tcp dns p d m h =
      process_udp-StepKeeps s mode spare seg dns p d m h
  transport-StepKeeps s mode spare none (some seg) dns p d m h =
      process_tcp-StepKeeps s mode seg dns p d m h
  transport-StepKeeps s mode spare none none dns p d m h = process_dns-StepKeeps s dns p d h
