-- ===== src/Decoder/Process/Front.antt =====
-- decoder/decoder.go: `Process` from the captured bytes on, up to the transport layer.
use heplify.Common.{
  ◌+◌, Bool, true, false, not, ◌&&◌, ◌||◌, [], ◌∷◌, Option, none, some, length, drop, ltb, ◌==◌,
  if◌then◌else◌, Outcome, ok, err, panic, stuck,
}
use heplify.Common.Bytes.{Bytes}
use heplify.Publish.Hep.{Packet}
use heplify.Ip4defrag.{Ip4, DefragError}
use heplify.Ip4defrag.Defragmenter.{defrag_ipv4_with_timestamp}
use heplify.Decoder.Machine.Scan.{parse_cseq}
use heplify.Decoder.Machine.Grammar.{one_of}
use heplify.Decoder.Process.Payload.{contains, nil_bytes, Step, process_transport}
use heplify.Decoder.Process.Capture.{Outside, Config, CaptureInfo, timestamp, Agent, new_packet}

abbrev pub is_empty : Bytes → Bool
is_empty [] = true
is_empty (b ∷ s) = false

-- `config.Cfg.Filter` and `config.Cfg.Discard`
unfoldable pub is_wanted : Config → Bytes → Bool
is_wanted cfg payload =
    (is_empty cfg.filter || contains cfg.filter payload)
    && (is_empty cfg.discard || not (contains cfg.discard payload))

-- A slice from 8 on, which panics beyond the length.
unfoldable pub from_8 : Bytes → Outcome ⊥ Bytes
from_8 b = if ltb (length b) 8 then panic else ok (drop 8 b)

module _ (o : Outside) where
  open o use {cache, net, gp}

  -- What a part of `Process` comes to: nil is returned, or the packet goes on.
  pub data Passage (A : Type 0) : Type 0 where
    stops : Agent o → Passage A
    passes : A → Agent o → Passage A

  -- `config.Cfg.Dedup`
  unfoldable pub check_duplicate : Config → Bytes → Agent o → Passage Unit
  check_duplicate cfg payload a =
      let seen : Passage Unit = elim (cache.get payload a.inner.sip) [
        | some v ↦ stops (record a { dup_count = a.dup_count + 1 })
        | none ↦ elim (cache.set payload [] 1 a.inner.sip) [
          | some sip' ↦ passes tt (record a { inner = record (a.inner) { sip = sip' } })
          | none ↦ passes tt a
        ]
      ] in
      if cfg.dedup then seen else passes tt a

  unfoldable pub check_wanted : Config → Bytes → Passage Unit → Passage Unit
  check_wanted cfg payload (stops a) = stops a
  check_wanted cfg payload (passes u a) = if is_wanted cfg payload then passes u a else stops a

  -- The tests on the bytes behind the first 42.
  unfoldable pub check_payload : Config → Bytes → Agent o → Passage Unit
  check_payload cfg msg a =
      let payload = drop 42 msg in
      if ltb 42 (length msg)
      then check_wanted cfg payload (check_duplicate cfg payload a)
      else passes tt a

  -- `config.Cfg.DiscardMethod`
  unfoldable pub check_method : Config → Bytes → Agent o → Outcome ⊥ (Passage Unit)
  check_method cfg msg a =
      let scanned : Outcome ⊥ (Passage Unit) = elim (parse_cseq msg) [
        | none ↦ panic
        | some s ↦
            let a1 = record a { cseq = s.cseq } in
            if one_of (nil_bytes s.cseq) a.filter then ok (stops a1) else ok (passes tt a1)
      ] in
      if is_empty cfg.discard_method then ok (passes tt a) else scanned

  -- The packet inside a GRE tunnel, behind 8 bytes of ERSPAN header if so configured.
  unfoldable pub inside_gre : Config → gp.Frame → Outcome ⊥ gp.Frame
  inside_gre cfg frame = elim (gp.gre frame) [
    | none ↦ ok frame
    | some payload ↦
        if cfg.with_erspan
        then elim (from_8 payload) [
          | ok inner ↦ ok (gp.new_packet inner)
          | err e ↦ err e
          | panic ↦ panic
          | stuck ↦ stuck
        ]
        else ok (gp.new_packet payload)
  ]

  unfoldable pub with_vlan : gp.Frame → Packet → Packet
  with_vlan frame p = elim (gp.dot1q frame) [ none ↦ p | some id ↦ record p { vlan = id } ]

  abbrev pub with_ip4 : Ip4 → Packet → Packet
  with_ip4 ip p = record p {
    version = 2;
    protocol = ip.protocol;
    src_ip = some ip.src_ip;
    dst_ip = some ip.dst_ip;
  }

  -- What the defragmenter answered. A datagram put together has another length; its payload is sliced
  -- for a log line.
  unfoldable pub defragged :
      Ip4
      → gp.Frame
      → Packet
      → Agent o
      → Outcome DefragError (Option Ip4)
      → Outcome ⊥ (Passage (gp.Frame × Packet))
  defragged ip frame p a (err e) = ok (stops a)
  defragged ip frame p a panic = panic
  defragged ip frame p a stuck = stuck
  defragged ip frame p a (ok none) = ok (stops (record a { frag_count = a.frag_count + 1 }))
  defragged ip frame p a (ok (some whole)) =
      let rebuilt : Outcome ⊥ (Passage (gp.Frame × Packet)) = elim (from_8 whole.payload) [
        | ok text ↦ ok (passes (gp.decode_next whole frame, with_ip4 whole p) a)
        | err e ↦ err e
        | panic ↦ panic
        | stuck ↦ stuck
      ] in
      if whole.length == ip.length then ok (passes (frame, p) a) else rebuilt

  unfoldable pub process_ip4 :
      CaptureInfo → gp.Frame → Packet → Agent o → Outcome ⊥ (Passage (gp.Frame × Packet))
  process_ip4 ci frame p a = elim (gp.ip4 frame) [
    | none ↦ ok (passes (frame, p) a)
    | some ip ↦
        let (flows', r) = defrag_ipv4_with_timestamp net a.flows ip (timestamp ci) in
        defragged ip frame (with_ip4 ip p)
          (record a { flows = flows'; ip4_count = a.ip4_count + 1 }) r
  ]

  unfoldable pub process_ip6 : gp.Frame → Packet → Agent o → Packet × Agent o
  process_ip6 frame p a = elim (gp.ip6 frame) [
    | none ↦ (p, a)
    | some ip ↦ (
      record p {
        version = 10;
        protocol = ip.next_header;
        src_ip = some ip.src_ip;
        dst_ip = some ip.dst_ip;
      },
      record a { ip6_count = a.ip6_count + 1 },
    )
  ]

  -- The packet to send, if any, and the decoder afterwards.
  abbrev pub Answer : Type 0
  Answer = Outcome ⊥ (Option Packet × Agent o)

  unfoldable pub answer_of : Agent o → Step o.cache o.ip_string o.rtcp_json o.ng_json → Answer
  answer_of a (ok (q, d)) = ok (q, record a { inner = d })
  answer_of a (err e) = err e
  answer_of a panic = panic
  answer_of a stuck = stuck

  unfoldable pub process_network :
      Config → CaptureInfo → Bytes → gp.Frame → Packet → Agent o → Answer
  process_network cfg ci spare frame p a = elim (process_ip4 ci frame p a) [
    | ok (stops a1) ↦ ok (none, a1)
    | ok (passes (frame1, p1) a1) ↦
        let (p2, a2) = process_ip6 frame1 p1 a1 in
        answer_of a2 (
          process_transport o.cache o.ip_string o.rtcp_json o.ng_json cfg.mode spare
            (gp.transport frame1) p2 a2.inner)
    | err e ↦ err e
    | panic ↦ panic
    | stuck ↦ stuck
  ]

  unfoldable pub process_frame : Config → CaptureInfo → Bytes → Bytes → Packet → Agent o → Answer
  process_frame cfg ci spare msg p a = elim (inside_gre cfg (gp.new_packet msg)) [
    | ok frame ↦ process_network cfg ci spare frame (with_vlan frame p) a
    | err e ↦ err e
    | panic ↦ panic
    | stuck ↦ stuck
  ]

  -- `Process`; `spare` is what lies behind a UDP payload in its array.
  unfoldable pub process : Config → Bytes → Bytes → CaptureInfo → Agent o → Answer
  process cfg spare msg ci a = elim (check_payload cfg msg a) [
    | stops a1 ↦ ok (none, a1)
    | passes u a1 ↦ elim (check_method cfg msg a1) [
      | ok (stops a2) ↦ ok (none, a2)
      | ok (passes v a2) ↦ process_frame cfg ci spare msg (new_packet o a2 ci) a2
      | err e ↦ err e
      | panic ↦ panic
      | stuck ↦ stuck
    ]
  ]
