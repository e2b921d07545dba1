-- ===== src/Pipeline/Finish.antt =====
-- Every interleaving of the goroutines comes to what one frame after the other comes to.
use heplify.Common.{
  ◌≡◌, refl, sym, ap, ◌∙◌, List, [], ◌∷◌, ◌++◌, append_assoc, Option, none, some, length, ltb,
  Bool-cases, inl, inr, ok, err, panic, stuck,
}
use mathlib.Core.Path.{subst}
use heplify.Common.Bytes.{Bytes}
use heplify.Publish.Hep.{Packet}
use heplify.Publish.Hep.Encode.{initial_scratch}
use heplify.Publish.Output.{Transport, Net, HepOutputer, send_all}
use heplify.Decoder.Process.Capture.{Outside, Config, Agent}
use heplify.Decoder.Process.Front.{process}
use heplify.Pipeline.{
  Frame, queue_size, enqueue, Action, decodes, publishes, encodes, queues, sends, resets, Pipeline,
  started, decode_frame, send_packet, receive_packet, send_message, receive_message, advance, Reach,
  initially, later,
}
use heplify.Pipeline.Sequential.{held, encode_all, process_all, packets_left, finish}

module _ (o : Outside) (net : Net) (cfg : Config) (t : Transport) where
  open net use {World}

  abbrev P : Type 0
  P = Pipeline o net cfg t

  -- Where a step is taken, it leads to a state that comes to this end.
  abbrev Ends : HepOutputer net × World → Option P → Type 0
  Ends e none = Unit {0}
  Ends e (some u) = e ≡ finish o net cfg t u

  abbrev SameEnd : P → Option P → Type 0
  SameEnd s = Ends (finish o net cfg t s)

  -- The end of a state, given the packets that come after those in the queue.
  abbrev end_with : P → List Packet → HepOutputer net × World
  end_with s ps =
      send_all net t (s.hep_queue ++ (held s.msg ++ encode_all s.scratch (s.pkt_queue ++ ps)))
        s.outputer s.world

  decode_frame-SameEnd :
      (q : Option Packet) (fs : List Frame) (s : P)
      → SameEnd
          (record s { pkt = q; frames = fs })
          (decode_frame o net cfg t q fs (record s { pkt = q; frames = fs }))
  unfolding decode_frame process_all
  decode_frame-SameEnd (some q) fs s = tt
  decode_frame-SameEnd none [] s = tt
  decode_frame-SameEnd none (f ∷ fs) s =
      elim (process o cfg f.spare f.bytes f.ci s.decoder)
        as (λ r.
          Ends
            (end_with s (elim r [
              | ok (q, a) ↦ held q ++ process_all o cfg fs a
              | err e ↦ []
              | panic ↦ []
              | stuck ↦ []
            ]))
            (elim r [
              | ok (q, a) ↦ some (record s { frames = fs; decoder = a; pkt = q })
              | err e ↦ none
              | panic ↦ none
              | stuck ↦ none
            ])) [ ok (q, a) ↦ refl | err e ↦ tt | panic ↦ tt | stuck ↦ tt ]

  send_packet-SameEnd :
      (q : Option Packet) (s : P)
      → SameEnd (record s { pkt = q }) (send_packet o net cfg t q (record s { pkt = q }))
  unfolding send_packet enqueue
  send_packet-SameEnd none s = tt
  send_packet-SameEnd (some q) s = elim (Bool-cases (ltb (length s.pkt_queue) queue_size)) [
    | inl e ↦
        let ps = process_all o cfg s.frames s.decoder in
        rw (send_packet, e)
          (ap
            (λ l.
              send_all net t (s.hep_queue ++ (held s.msg ++ encode_all s.scratch l)) s.outputer
                s.world)
            (sym (append_assoc s.pkt_queue (q ∷ []) ps)))
    | inr e ↦ rw (send_packet, e) tt
  ]

  receive_packet-SameEnd :
      (m : Option Bytes) (qs : List Packet) (s : P)
      → SameEnd
          (record s { msg = m; pkt_queue = qs })
          (receive_packet o net cfg t m qs (record s { msg = m; pkt_queue = qs }))
  unfolding receive_packet encode_all
  receive_packet-SameEnd (some m) qs s = tt
  receive_packet-SameEnd none [] s = tt
  receive_packet-SameEnd none (q ∷ qs) s = refl

  send_message-SameEnd :
      (m : Option Bytes) (s : P)
      → SameEnd (record s { msg = m }) (send_message o net cfg t m (record s { msg = m }))
  unfolding send_message enqueue
  send_message-SameEnd none s = tt
  send_message-SameEnd (some m) s = elim (Bool-cases (ltb (length s.hep_queue) queue_size)) [
    | inl e ↦
        let ms = encode_all s.scratch (packets_left o net cfg t s) in
        rw (send_message, e)
          (ap (λ l. send_all net t l s.outputer s.world)
            (sym (append_assoc s.hep_queue (m ∷ []) ms)))
    | inr e ↦ rw (send_message, e) tt
  ]

  receive_message-SameEnd :
      (ms : List Bytes) (s : P)
      → SameEnd
          (record s { hep_queue = ms })
          (receive_message o net cfg t ms (record s { hep_queue = ms }))
  unfolding receive_message send_all
  receive_message-SameEnd [] s = tt
  receive_message-SameEnd (m ∷ ms) s = refl

  advance-SameEnd : (act : Action) (s : P) → SameEnd s (advance o net cfg t act s)
  unfolding advance
  advance-SameEnd decodes s = decode_frame-SameEnd s.pkt s.frames s
  advance-SameEnd publishes s = send_packet-SameEnd s.pkt s
  advance-SameEnd encodes s = receive_packet-SameEnd s.msg s.pkt_queue s
  advance-SameEnd queues s = send_message-SameEnd s.msg s
  advance-SameEnd sends s = receive_message-SameEnd s.hep_queue s
  advance-SameEnd resets s = refl

  pub Reach-finish : {s u : P} → Reach o net cfg t s u → finish o net cfg t s ≡ finish o net cfg t u
  Reach-finish initially = refl
  Reach-finish (later {u} act r e) = Reach-finish r ∙ subst (SameEnd u) e (advance-SameEnd act u)

  -- Nothing is left to do.
  pub record AtRest (s : P) : Type 0 where
    pub no_frames : s.frames ≡ []
    pub no_pkt : s.pkt ≡ none
    pub no_packets : s.pkt_queue ≡ []
    pub no_msg : s.msg ≡ none
    pub no_messages : s.hep_queue ≡ []

  AtRest-finish : (s : P) → AtRest s → finish o net cfg t s ≡ (s.outputer, s.world)
  unfolding send_all encode_all process_all
  AtRest-finish s r = rw (r.no_messages, r.no_msg, r.no_packets, r.no_pkt, r.no_frames) refl

  -- However the goroutines were interleaved: once nothing is left to do, the outputer and the network are
  -- as if every frame had been processed, its packet encoded and the message sent before the next.
  pub Reach-sequential :
      (fs : List Frame) (a : Agent o) (h : HepOutputer net) (w : World) (s : P)
      → Reach o net cfg t (started o net cfg t fs a h w) s
      → AtRest s
      → (s.outputer, s.world)
        ≡ send_all net t (encode_all initial_scratch (process_all o cfg fs a)) h w
  Reach-sequential fs a h w s r rest = sym (Reach-finish r ∙ AtRest-finish s rest)
