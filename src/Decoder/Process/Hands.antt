-- ===== src/Decoder/Process/Hands.antt =====
-- decoder/decoder.go: what `Process` hands on of a frame that passed its tests.
use heplify.Common.{
  ◌%◌, ◌/◌, ◌≡◌, ◌∙◌, Bool, true, false, Option, none, some, ◌==◌, if◌then◌else◌, Outcome, ok, err,
  panic, stuck, inl, inr, Option-cases,
}
use heplify.Common.Bytes.{Bytes}
use heplify.Publish.Hep.{Packet}
use heplify.Ip4defrag.{Ip4, DefragError}
use heplify.Decoder.Correlator.Rtcp.{is_some}
use heplify.Decoder.Process.Payload.{Step, process_transport}
use heplify.Decoder.Process.Modes.{Sends, process_transport-Sends}
use heplify.Decoder.Process.Capture.{Outside, Config, CaptureInfo, Agent}
use heplify.Decoder.Process.Front.{
  from_8, Passage, stops, passes, inside_gre, with_vlan, with_ip4, defragged, process_ip4,
  process_ip6, Answer, answer_of, process_network, process_frame,
}

module _ (o : Outside) where
  open o use {gp}

  -- The node and the times that a packet carries.
  abbrev pub IsOf : Agent o → CaptureInfo → Packet → Type 0
  IsOf a ci q =
      (q.node_id ≡ a.node_id)
      × (q.node_pw ≡ some a.node_pw)
      × (q.tsec ≡ ci.unix % 4294967296)
      × (q.tmsec ≡ ci.nanosecond / 1000 % 4294967296)

  -- A packet that is handed on has a property.
  abbrev pub Hands : (Packet → Type 0) → Answer o → Type 0
  Hands P (ok (some q, a)) = P q
  Hands P r = Unit

  abbrev pub Sent : Agent o → CaptureInfo → Packet → Type 0
  Sent a ci q = (is_some q.payload ≡ true) × IsOf a ci q

  abbrev Carries : (Packet → Type 0) → Outcome ⊥ (Passage o (gp.Frame × Packet)) → Type 0
  Carries P (ok (passes (frame, p) a)) = P p
  Carries P r = Unit

  answer_of-Hands :
      (a b : Agent o) (ci : CaptureInfo) (p : Packet)
      (r : Step o.cache o.ip_string o.rtcp_json o.ng_json)
      → IsOf b ci p
      → Sends o.cache o.ip_string o.rtcp_json o.ng_json p r
      → Hands (Sent b ci) (answer_of o a r)
  unfolding answer_of
  answer_of-Hands a b ci p (ok (some q, d)) (n, w, t, m) (sent, (_, _, _, _, t', m', n', w', _)) =
      (sent, (n' ∙ n, w' ∙ w, t' ∙ t, m' ∙ m))
  answer_of-Hands a b ci p (ok (none, d)) h s = tt
  answer_of-Hands a b ci p (err e) h s = tt
  answer_of-Hands a b ci p panic h s = tt
  answer_of-Hands a b ci p stuck h s = tt

  from_8-Carries :
      (b : Agent o) (ci : CaptureInfo) (whole : Ip4) (frame : gp.Frame) (p : Packet) (a : Agent o)
      (r : Outcome ⊥ Bytes)
      → IsOf b ci p
      → Carries (IsOf b ci) (elim r [
        | ok text ↦ ok (passes (gp.decode_next whole frame, with_ip4 o whole p) a)
        | err e ↦ err e
        | panic ↦ panic
        | stuck ↦ stuck
      ])
  from_8-Carries b ci whole frame p a (ok text) h = h
  from_8-Carries b ci whole frame p a (err e) h = tt
  from_8-Carries b ci whole frame p a panic h = tt
  from_8-Carries b ci whole frame p a stuck h = tt

  either :
      (P : Packet → Type 0) (c : Bool) (x y : Outcome ⊥ (Passage o (gp.Frame × Packet)))
      → Carries P x
      → Carries P y
      → Carries P (if c then x else y)
  either P true x y h k = h
  either P false x y h k = k

  defragged-Carries :
      (b : Agent o) (ci : CaptureInfo) (ip : Ip4) (frame : gp.Frame) (p : Packet) (a : Agent o)
      (r : Outcome DefragError (Option Ip4))
      → IsOf b ci p
      → Carries (IsOf b ci) (defragged o ip frame p a r)
  unfolding defragged
  defragged-Carries b ci ip frame p a (err e) h = tt
  defragged-Carries b ci ip frame p a panic h = tt
  defragged-Carries b ci ip frame p a stuck h = tt
  defragged-Carries b ci ip frame p a (ok none) h = tt
  defragged-Carries b ci ip frame p a (ok (some whole)) h =
      either (IsOf b ci) (whole.length == ip.length) (ok (passes (frame, p) a)) _ h
        (from_8-Carries b ci whole frame p a (from_8 whole.payload) h)

  process_ip4-Carries :
      (b : Agent o) (ci : CaptureInfo) (frame : gp.Frame) (p : Packet) (a : Agent o)
      → IsOf b ci p
      → Carries (IsOf b ci) (process_ip4 o ci frame p a)
  unfolding process_ip4
  process_ip4-Carries b ci frame p a h = elim (Option-cases (gp.ip4 frame)) [
    | inl e ↦ rw (Carries, process_ip4, e) h
    | inr (ip, e) ↦
        rw (Carries, process_ip4, e) (defragged-Carries b ci ip frame (with_ip4 o ip p) _ _ h)
  ]

  process_ip6-IsOf :
      (b : Agent o) (ci : CaptureInfo) (frame : gp.Frame) (p : Packet) (a : Agent o)
      → IsOf b ci p
      → IsOf b ci (process_ip6 o frame p a).0
  unfolding process_ip6
  process_ip6-IsOf b ci frame p a h = elim (Option-cases (gp.ip6 frame)) [
    | inl e ↦ rw (process_ip6, e) h
    | inr (ip, e) ↦ rw (process_ip6, e) h
  ]

  with_vlan-IsOf :
      (b : Agent o) (ci : CaptureInfo) (frame : gp.Frame) (p : Packet)
      → IsOf b ci p
      → IsOf b ci (with_vlan o frame p)
  unfolding with_vlan
  with_vlan-IsOf b ci frame p h = elim (Option-cases (gp.dot1q frame)) [
    | inl e ↦ rw (with_vlan, e) h
    | inr (id, e) ↦ rw (with_vlan, e) h
  ]

  network_goes-on :
      (b : Agent o) (cfg : Config) (ci : CaptureInfo) (spare : Bytes)
      (r : Outcome ⊥ (Passage o (gp.Frame × Packet)))
      → Carries (IsOf b ci) r
      → Hands (Sent b ci) (elim r [
        | ok (stops a1) ↦ ok (none, a1)
        | ok (passes (frame1, p1) a1) ↦
            let (p2, a2) = process_ip6 o frame1 p1 a1 in
            answer_of o a2 (
              process_transport o.cache o.ip_string o.rtcp_json o.ng_json cfg.mode spare
                (gp.transport frame1)
                p2
                a2.inner)
        | err e ↦ err e
        | panic ↦ panic
        | stuck ↦ stuck
      ])
  network_goes-on b cfg ci spare (ok (stops a1)) h = tt
  network_goes-on b cfg ci spare (ok (passes (frame1, p1) a1)) h =
      let both = process_ip6 o frame1 p1 a1 in
      let layers = gp.transport frame1 in
      answer_of-Hands both.1 b ci both.0 _ (process_ip6-IsOf b ci frame1 p1 a1 h) (
        process_transport-Sends o.cache o.ip_string o.rtcp_json o.ng_json cfg.mode spare layers.udp
          layers.tcp layers.dns both.0 both.1.inner)
  network_goes-on b cfg ci spare (err e) h = tt
  network_goes-on b cfg ci spare panic h = tt
  network_goes-on b cfg ci spare stuck h = tt

  pub process_frame-Hands :
      (b : Agent o) (cfg : Config) (ci : CaptureInfo) (spare msg : Bytes) (p : Packet) (a : Agent o)
      → IsOf b ci p
      → Hands (Sent b ci) (process_frame o cfg ci spare msg p a)
  unfolding process_frame process_network
  process_frame-Hands b cfg ci spare msg p a h = within (inside_gre o cfg (gp.new_packet msg))
    where
      within :
          (r : Outcome ⊥ gp.Frame)
          → Hands (Sent b ci) (elim r [
            | ok frame ↦ process_network o cfg ci spare frame (with_vlan o frame p) a
            | err e ↦ err e
            | panic ↦ panic
            | stuck ↦ stuck
          ])
      within (ok frame) =
          network_goes-on b cfg ci spare (process_ip4 o ci frame (with_vlan o frame p) a)
            (process_ip4-Carries b ci frame (with_vlan o frame p) a (with_vlan-IsOf b ci frame p h))
      within (err e) = tt
      within panic = tt
      within stuck = tt
