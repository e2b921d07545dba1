-- ===== src/Decoder/Process/Keeps.antt =====
-- decoder/decoder.go: outside of the mode SIPLOG, decoding a frame leaves the SIP cache alone.
use heplify.Common.{
  ◌≡◌, Bool, true, false, Option, none, some, ◌==◌, if◌then◌else◌, Outcome, ok, err, panic, stuck,
  inl, inr, Option-cases,
}
use heplify.Common.Bytes.{Bytes}
use heplify.Publish.Hep.{Packet}
use heplify.Ip4defrag.{Ip4, DefragError}
use heplify.Decoder.Process.Payload.{is_sip_log, Step, process_transport}
use heplify.Decoder.Process.Capture.{Outside, Config, CaptureInfo, Agent}
use heplify.Decoder.Process.Duplicates.{StepKeeps, transport-StepKeeps}
use heplify.Decoder.Process.Front.{
  from_8, Passage, stops, passes, inside_gre, with_vlan, with_ip4, defragged, process_ip4,
  process_ip6, Answer, answer_of, process_network, process_frame,
}

module _ (o : Outside) where
  open o use {cache, ip_string, rtcp_json, ng_json, gp}

  abbrev pub Holds : cache.Store → Agent o → Type 0
  Holds s a = a.inner.sip ≡ s

  -- The SIP cache afterwards, where nil is returned and where the packet goes on.
  abbrev pub PassageKeeps : {A : Type 0} → cache.Store → Outcome ⊥ (Passage o A) → Type 0
  PassageKeeps s (ok (stops a)) = Holds s a
  PassageKeeps s (ok (passes x a)) = Holds s a
  PassageKeeps s r = Unit

  abbrev pub AnswerKeeps : cache.Store → Answer o → Type 0
  AnswerKeeps s (ok (q, a)) = Holds s a
  AnswerKeeps s r = Unit

  answer_of-AnswerKeeps :
      (s : cache.Store) (a : Agent o) (r : Step cache ip_string rtcp_json ng_json)
      → StepKeeps o s r
      → AnswerKeeps s (answer_of o a r)
  unfolding answer_of
  answer_of-AnswerKeeps s a (ok (q, d)) h = h
  answer_of-AnswerKeeps s a (err e) h = tt
  answer_of-AnswerKeeps s a panic h = tt
  answer_of-AnswerKeeps s a stuck h = tt

  pub either :
      {A : Type 0} (s : cache.Store) (b : Bool) (x y : Outcome ⊥ (Passage o A))
      → PassageKeeps s x
      → PassageKeeps s y
      → PassageKeeps s (if b then x else y)
  either s true x y h k = h
  either s false x y h k = k

  rebuilt-PassageKeeps :
      (s : cache.Store) (whole : Ip4) (frame : gp.Frame) (p : Packet) (a : Agent o)
      (r : Outcome ⊥ Bytes)
      → Holds s a
      → PassageKeeps s (elim r as (λ x. Outcome ⊥ (Passage o (gp.Frame × Packet))) [
        | ok text ↦ ok (passes (gp.decode_next whole frame, with_ip4 o whole p) a)
        | err e ↦ err e
        | panic ↦ panic
        | stuck ↦ stuck
      ])
  rebuilt-PassageKeeps s whole frame p a (ok text) h = h
  rebuilt-PassageKeeps s whole frame p a (err e) h = tt
  rebuilt-PassageKeeps s whole frame p a panic h = tt
  rebuilt-PassageKeeps s whole frame p a stuck h = tt

  defragged-PassageKeeps :
      (s : cache.Store) (ip : Ip4) (frame : gp.Frame) (p : Packet) (a : Agent o)
      (r : Outcome DefragError (Option Ip4))
      → Holds s a
      → PassageKeeps s (defragged o ip frame p a r)
  unfolding defragged
  defragged-PassageKeeps s ip frame p a (err e) h = h
  defragged-PassageKeeps s ip frame p a panic h = tt
  defragged-PassageKeeps s ip frame p a stuck h = tt
  defragged-PassageKeeps s ip frame p a (ok none) h = h
  defragged-PassageKeeps s ip frame p a (ok (some whole)) h =
      either s (whole.length == ip.length) (ok (passes (frame, p) a)) _ h
        (rebuilt-PassageKeeps s whole frame p a (from_8 whole.payload) h)

  process_ip4-PassageKeeps :
      (s : cache.Store) (ci : CaptureInfo) (frame : gp.Frame) (p : Packet) (a : Agent o)
      → Holds s a
      → PassageKeeps s (process_ip4 o ci frame p a)
  unfolding process_ip4
  process_ip4-PassageKeeps s ci frame p a h = elim (Option-cases (gp.ip4 frame)) [
    | inl e ↦ rw (PassageKeeps, process_ip4, e) h
    | inr (ip, e) ↦
        rw (PassageKeeps, process_ip4, e)
          (defragged-PassageKeeps s ip frame (with_ip4 o ip p) _ _ h)
  ]

  process_ip6-Holds :
      (s : cache.Store) (frame : gp.Frame) (p : Packet) (a : Agent o)
      → Holds s a
      → Holds s (process_ip6 o frame p a).1
  unfolding process_ip6
  process_ip6-Holds s frame p a h = elim (Option-cases (gp.ip6 frame)) [
    | inl e ↦ rw (process_ip6, e) h
    | inr (ip, e) ↦ rw (process_ip6, e) h
  ]

  network_goes-on :
      (s : cache.Store) (cfg : Config) (spare : Bytes)
      (r : Outcome ⊥ (Passage o (gp.Frame × Packet)))
      → is_sip_log cfg.mode ≡ false
      → PassageKeeps s r
      → AnswerKeeps s (elim r as (λ x. Answer o) [
        | ok (stops a1) ↦ ok (none, a1)
        | ok (passes (frame1, p1) a1) ↦
            let (p2, a2) = process_ip6 o frame1 p1 a1 in
            answer_of o a2 (
              process_transport cache ip_string rtcp_json ng_json cfg.mode spare
                (gp.transport frame1)
                p2
                a2.inner)
        | err e ↦ err e
        | panic ↦ panic
        | stuck ↦ stuck
      ])
  network_goes-on s cfg spare (ok (stops a1)) m h = h
  network_goes-on s cfg spare (ok (passes (frame1, p1) a1)) m h =
      let both = process_ip6 o frame1 p1 a1 in
      let layers = gp.transport frame1 in
      answer_of-AnswerKeeps s both.1 _ (
        transport-StepKeeps o s cfg.mode spare layers.udp layers.tcp layers.dns both.0 both.1.inner
          m (process_ip6-Holds s frame1 p1 a1 h))
  network_goes-on s cfg spare (err e) m h = tt
  network_goes-on s cfg spare panic m h = tt
  network_goes-on s cfg spare stuck m h = tt

  pub process_frame-AnswerKeeps :
      (s : cache.Store) (cfg : Config) (ci : CaptureInfo) (spare msg : Bytes) (p : Packet)
      (a : Agent o)
      → is_sip_log cfg.mode ≡ false
      → Holds s a
      → AnswerKeeps s (process_frame o cfg ci spare msg p a)
  unfolding process_frame process_network
  process_frame-AnswerKeeps s cfg ci spare msg p a m h =
      within (inside_gre o cfg (gp.new_packet msg))
    where
      within :
          (r : Outcome ⊥ gp.Frame)
          → AnswerKeeps s (elim r as (λ x. Answer o) [
            | ok frame ↦ process_network o cfg ci spare frame (with_vlan o frame p) a
            | err e ↦ err e
            | panic ↦ panic
            | stuck ↦ stuck
          ])
      within (ok frame) =
          network_goes-on s cfg spare (process_ip4 o ci frame (with_vlan o frame p) a) m
            (process_ip4-PassageKeeps s ci frame (with_vlan o frame p) a h)
      within (err e) = tt
      within panic = tt
      within stuck = tt
