-- ===== src/Decoder/Process/Total.antt =====
-- decoder/decoder.go: `Process` ends.
use heplify.Common.{
  ◌≡◌, ◌≢◌, Option, none, some, Option-cases, Bool-cases, refl, length, ltb, ◌==◌, Outcome, ok, err,
  panic, stuck, inl, inr,
}
use heplify.Common.Bytes.{Bytes}
use heplify.Common.Gives.{returns, fails, panics, Gives-if, Gives-ne-stuck, Gives-cases, Ends}
use heplify.Publish.Hep.{Packet}
use heplify.Ip4defrag.{Ip4, DefragError}
use heplify.Decoder.Process.Payload.{Step, nil_bytes}
use heplify.Decoder.Machine.Scan.{parse_cseq}
use heplify.Decoder.Machine.Grammar.{one_of}
use heplify.Decoder.Process.Front.{
  is_empty, from_8, Passage, stops, passes, check_payload, check_method, inside_gre, defragged,
  process_ip4, answer_of, process_network, process_frame, process,
}
use heplify.Decoder.Process.Capture.{Outside, Config, CaptureInfo, Agent, timestamp}
use heplify.Ip4defrag.Ends.{defrag_ipv4_with_timestamp-Ends}
use heplify.Decoder.Process.Ends.{process_transport-Ends}

module _ (o : Outside) where
  open o use {cache, net, gp}

  check_method-Ends : (cfg : Config) (msg : Bytes) (a : Agent o) → Ends (check_method o cfg msg a)
  unfolding check_method
  check_method-Ends cfg msg a = elim (Bool-cases (is_empty cfg.discard_method)) [
    | inl e ↦ rw e (returns tt)
    | inr e ↦ elim (Option-cases (parse_cseq msg)) [
      | inl e' ↦ rw (e, e') panics
      | inr (s, e') ↦
          rw (e, e')
            (Gives-if (one_of (nil_bytes s.cseq) a.filter) (λ e. returns tt) (λ e. returns tt))
    ]
  ]

  from_8-Ends : (b : Bytes) → Ends (from_8 b)
  unfolding from_8
  from_8-Ends b = Gives-if (ltb (length b) 8) (λ e. panics) (λ e. returns tt)

  inside_gre-Ends : (cfg : Config) (frame : gp.Frame) → Ends (inside_gre o cfg frame)
  unfolding inside_gre
  inside_gre-Ends cfg frame = elim (Option-cases (gp.gre frame)) [
    | inl e ↦ rw (inside_gre, e) (returns tt)
    | inr (payload, e) ↦
        rw (inside_gre, e)
          (Gives-if cfg.with_erspan
            (λ e. elim (Gives-cases (from_8-Ends payload)) [
              | inl (b, e', u) ↦ rw e' (returns tt)
              | inr (inl (x, e')) ↦ rw e' fails
              | inr (inr e') ↦ rw e' panics
            ])
            (λ e. returns tt))
  ]

  defragged-Ends :
      (ip : Ip4) (frame : gp.Frame) (p : Packet) (a : Agent o)
      (r : Outcome DefragError (Option Ip4))
      → Ends r
      → Ends (defragged o ip frame p a r)
  unfolding defragged
  defragged-Ends ip frame p a (err x) h = returns tt
  defragged-Ends ip frame p a panic h = panics
  defragged-Ends ip frame p a stuck h = absurd (Gives-ne-stuck h refl)
  defragged-Ends ip frame p a (ok none) h = returns tt
  defragged-Ends ip frame p a (ok (some whole)) h =
      Gives-if (whole.length == ip.length) (λ e. returns tt)
        (λ e. elim (Gives-cases (from_8-Ends whole.payload)) [
          | inl (b, e', u) ↦ rw e' (returns tt)
          | inr (inl (x, e')) ↦ rw e' fails
          | inr (inr e') ↦ rw e' panics
        ])

  process_ip4-Ends :
      (ci : CaptureInfo) (frame : gp.Frame) (p : Packet) (a : Agent o)
      → Ends (process_ip4 o ci frame p a)
  unfolding process_ip4
  process_ip4-Ends ci frame p a = elim (Option-cases (gp.ip4 frame)) [
    | inl e ↦ rw (process_ip4, e) (returns tt)
    | inr (ip, e) ↦
        rw (process_ip4, e)
          (defragged-Ends ip frame _ _ _
            (defrag_ipv4_with_timestamp-Ends net a.flows ip (timestamp ci)))
  ]

  answer_of-Ends :
      (a : Agent o) (r : Step o.cache o.ip_string o.rtcp_json o.ng_json)
      → Ends r
      → Ends (answer_of o a r)
  unfolding answer_of
  answer_of-Ends a (ok (q, d)) h = returns tt
  answer_of-Ends a (err e) h = fails
  answer_of-Ends a panic h = panics
  answer_of-Ends a stuck h = absurd (Gives-ne-stuck h refl)

  process_network-Ends :
      (cfg : Config) (ci : CaptureInfo) (spare : Bytes) (frame : gp.Frame) (p : Packet)
      (a : Agent o)
      → Ends (process_network o cfg ci spare frame p a)
  unfolding process_network
  process_network-Ends cfg ci spare frame p a = elim (Gives-cases (process_ip4-Ends ci frame p a)) [
    | inl (stops a1, e, u) ↦ rw (process_network, e) (returns tt)
    | inl (passes (frame1, p1) a1, e, u) ↦
        rw (process_network, e)
          (answer_of-Ends _ _ (
            process_transport-Ends o.cache o.ip_string o.rtcp_json o.ng_json cfg.mode spare
              (gp.transport frame1) _ _))
    | inr (inl (x, e)) ↦ rw (process_network, e) fails
    | inr (inr e) ↦ rw (process_network, e) panics
  ]

  process_frame-Ends :
      (cfg : Config) (ci : CaptureInfo) (spare msg : Bytes) (p : Packet) (a : Agent o)
      → Ends (process_frame o cfg ci spare msg p a)
  unfolding process_frame
  process_frame-Ends cfg ci spare msg p a =
      elim (Gives-cases (inside_gre-Ends cfg (gp.new_packet msg))) [
        | inl (frame, e, u) ↦ rw (process_frame, e) (process_network-Ends cfg ci spare frame _ a)
        | inr (inl (x, e)) ↦ rw (process_frame, e) fails
        | inr (inr e) ↦ rw (process_frame, e) panics
      ]

  method-Ends :
      (cfg : Config) (spare msg : Bytes) (ci : CaptureInfo) (a : Agent o) (c : Passage o Unit)
      → check_payload o cfg msg a ≡ c
      → Ends (process o cfg spare msg ci a)
  unfolding process
  method-Ends cfg spare msg ci a (stops a1) c = rw (process, c) (returns tt)
  method-Ends cfg spare msg ci a (passes u a1) c =
      elim (Gives-cases (check_method-Ends cfg msg a1)) [
        | inl (stops a2, e, u') ↦ rw (process, c, e) (returns tt)
        | inl (passes v a2, e, u') ↦ rw (process, c, e) (process_frame-Ends cfg ci spare msg _ a2)
        | inr (inl (x, e)) ↦ rw (process, c, e) fails
        | inr (inr e) ↦ rw (process, c, e) panics
      ]

  -- `Process` ends for every frame, whatever the settings, the layers that are found in it, and what the
  -- decoder holds: no loop of what it calls runs out of fuel, so it returns or panics.
  pub process-ne-stuck :
      (cfg : Config) (spare msg : Bytes) (ci : CaptureInfo) (a : Agent o)
      → process o cfg spare msg ci a ≢ stuck
  process-ne-stuck cfg spare msg ci a =
      Gives-ne-stuck (method-Ends cfg spare msg ci a (check_payload o cfg msg a) refl)
