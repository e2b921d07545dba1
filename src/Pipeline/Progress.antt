-- ===== src/Pipeline/Progress.antt =====
-- The goroutines do not block one another for ever, and every frame takes five steps at most.
use mathlib.Core.Path.{subst}
use heplify.Common.{
  ℕ, zero, suc, ◌+◌, ◌*◌, ◌≤◌, ◌<◌, ◌≡◌, ◌≢◌, refl, List, [], ◌∷◌, length-append, Option, none,
  some, length, ltb, Bool-cases, inl, inr, ◌⊎◌, ok, err, panic, stuck, arith,
}
use heplify.Common.Bytes.{Bytes}
use heplify.Publish.Hep.{Packet}
use heplify.Publish.Output.{Transport, Net, HepOutputer}
use heplify.Decoder.Process.Capture.{Outside, Config, Agent}
use heplify.Decoder.Process.Front.{Answer, process}
use heplify.Pipeline.{
  Frame, queue_size, enqueue, Action, decodes, publishes, encodes, queues, sends, resets, Pipeline,
  started, decode_frame, send_packet, receive_packet, send_message, receive_message, advance, Reach,
  initially, later,
}
use heplify.Decoder.Process.Total.{process-ne-stuck}
use heplify.Pipeline.Sequential.{held}
use heplify.Pipeline.Finish.{AtRest}

module _ (o : Outside) (net : Net) (cfg : Config) (t : Transport) where
  abbrev P : Type 0
  P = Pipeline o net cfg t

  -- Process panics at the next frame.
  pub record Dies (s : P) : Type 0 where
    pub frame : Frame
    pub frames : List Frame
    pub next : s.frames ≡ frame ∷ frames
    pub panics : process o cfg frame.spare frame.bytes frame.ci s.decoder ≡ panic

  -- The steps that are still to be taken, five at most for a frame.
  abbrev pub weight : P → ℕ
  weight s =
      5 * length s.frames
      + 4 * length (held s.pkt)
      + 3 * length s.pkt_queue
      + 2 * length (held s.msg)
      + length s.hep_queue

  -- A step other than a reset, and a state that is lighter for it.
  pub record Advances (s : P) : Type 0 where
    pub act : Action
    pub after : P
    pub taken : advance o net cfg t act s ≡ some after
    pub works : act ≢ resets

  length-held : (q : Option Packet) → length (held q) ≤ 1
  length-held none = omega arith
  length-held (some q) = omega arith

  abbrev Options : P → Type 0
  Options s = AtRest o net cfg t s ⊎ (Advances s ⊎ Dies s)

  decided :
      (f : Frame) (fs : List Frame) (s : P) (r : Answer o)
      → process o cfg f.spare f.bytes f.ci s.decoder ≡ r
      → Options (record s { frames = f ∷ fs; pkt = none })
  unfolding advance decode_frame
  decided f fs s (ok (q, a)) e = inr (
      inl (record {
        act = decodes;
        after = record s { frames = fs; decoder = a; pkt = q };
        taken = rw (decode_frame, e) refl;
        works = λ p. cc;
      }))
  decided f fs s (err x) e = elim x [ ]
  decided f fs s panic e = inr (inr (record { frame = f; frames = fs; next = refl; panics = e }))
  decided f fs s stuck e = absurd (process-ne-stuck o cfg f.spare f.bytes f.ci s.decoder e)

  options :
      (fs : List Frame) (q : Option Packet) (qs : List Packet) (m : Option Bytes) (ms : List Bytes)
      (s : P)
      → Options (record s { frames = fs; pkt = q; pkt_queue = qs; msg = m; hep_queue = ms })
  unfolding advance receive_message send_message receive_packet send_packet enqueue
  options fs q qs m (x ∷ ms) s =
      inr (inl (record { act = sends; after = _; taken = refl; works = λ p. cc }))
  options fs q qs (some x) [] s =
      inr (inl (record { act = queues; after = _; taken = refl; works = λ p. cc }))
  options fs q (x ∷ qs) none [] s =
      inr (inl (record { act = encodes; after = _; taken = refl; works = λ p. cc }))
  options fs (some x) [] none [] s =
      inr (inl (record { act = publishes; after = _; taken = refl; works = λ p. cc }))
  options (f ∷ fs) none [] none [] s =
      decided f fs (record s { pkt_queue = []; msg = none; hep_queue = [] })
        (process o cfg f.spare f.bytes f.ci s.decoder) refl
  options [] none [] none [] s = inl (record {
    no_frames = refl;
    no_pkt = refl;
    no_packets = refl;
    no_msg = refl;
    no_messages = refl;
  })

  pub progress : (s : P) → Options s
  progress s = options s.frames s.pkt s.pkt_queue s.msg s.hep_queue s

  -- Where a step is taken, it leads to a lighter state.
  abbrev Lighter : ℕ → Option P → Type 0
  Lighter w none = Unit {0}
  Lighter w (some u) = weight u < w

  decode_frame-Lighter :
      (q : Option Packet) (fs : List Frame) (s : P)
      → Lighter
          (weight (record s { pkt = q; frames = fs }))
          (decode_frame o net cfg t q fs (record s { pkt = q; frames = fs }))
  unfolding decode_frame
  decode_frame-Lighter (some q) fs s = tt
  decode_frame-Lighter none [] s = tt
  decode_frame-Lighter none (f ∷ fs) s =
      elim (process o cfg f.spare f.bytes f.ci s.decoder)
        as (λ r. Lighter (weight (record s { pkt = none; frames = f ∷ fs })) (elim r [
          | ok (q, a) ↦ some (record s { frames = fs; decoder = a; pkt = q })
          | err e ↦ none
          | panic ↦ none
          | stuck ↦ none
        ])) [ ok (q, a) ↦ omega (arith, length-held q) | err e ↦ tt | panic ↦ tt | stuck ↦ tt ]

  send_packet-Lighter :
      (q : Option Packet) (s : P)
      → Lighter (weight (record s { pkt = q })) (send_packet o net cfg t q (record s { pkt = q }))
  unfolding send_packet enqueue
  send_packet-Lighter none s = tt
  send_packet-Lighter (some q) s = elim (Bool-cases (ltb (length s.pkt_queue) queue_size)) [
    | inl e ↦ rw (send_packet, e) (omega (arith, length-append s.pkt_queue (q ∷ [])))
    | inr e ↦ rw (send_packet, e) tt
  ]

  receive_packet-Lighter :
      (m : Option Bytes) (qs : List Packet) (s : P)
      → Lighter
          (weight (record s { msg = m; pkt_queue = qs }))
          (receive_packet o net cfg t m qs (record s { msg = m; pkt_queue = qs }))
  unfolding receive_packet
  receive_packet-Lighter (some m) qs s = tt
  receive_packet-Lighter none [] s = tt
  receive_packet-Lighter none (q ∷ qs) s = omega arith

  send_message-Lighter :
      (m : Option Bytes) (s : P)
      → Lighter (weight (record s { msg = m })) (send_message o net cfg t m (record s { msg = m }))
  unfolding send_message enqueue
  send_message-Lighter none s = tt
  send_message-Lighter (some m) s = elim (Bool-cases (ltb (length s.hep_queue) queue_size)) [
    | inl e ↦ rw (send_message, e) (omega (arith, length-append s.hep_queue (m ∷ [])))
    | inr e ↦ rw (send_message, e) tt
  ]

  receive_message-Lighter :
      (ms : List Bytes) (s : P)
      → Lighter
          (weight (record s { hep_queue = ms }))
          (receive_message o net cfg t ms (record s { hep_queue = ms }))
  unfolding receive_message
  receive_message-Lighter [] s = tt
  receive_message-Lighter (m ∷ ms) s = omega arith

  -- A reset adds nothing, every other step takes something away.
  abbrev pub cost : Action → ℕ
  cost decodes = 1
  cost publishes = 1
  cost encodes = 1
  cost queues = 1
  cost sends = 1
  cost resets = 0

  abbrev Costs : ℕ → ℕ → Option P → Type 0
  Costs c w none = Unit {0}
  Costs c w (some u) = c + weight u ≤ w

  Lighter-Costs : (w : ℕ) (r : Option P) → Lighter w r → Costs 1 w r
  Lighter-Costs w none l = tt
  Lighter-Costs w (some u) l = omega arith

  advance-Costs : (act : Action) (s : P) → Costs (cost act) (weight s) (advance o net cfg t act s)
  unfolding advance
  advance-Costs decodes s = Lighter-Costs (weight s) _ (decode_frame-Lighter s.pkt s.frames s)
  advance-Costs publishes s = Lighter-Costs (weight s) _ (send_packet-Lighter s.pkt s)
  advance-Costs encodes s = Lighter-Costs (weight s) _ (receive_packet-Lighter s.msg s.pkt_queue s)
  advance-Costs queues s = Lighter-Costs (weight s) _ (send_message-Lighter s.msg s)
  advance-Costs sends s = Lighter-Costs (weight s) _ (receive_message-Lighter s.hep_queue s)
  advance-Costs resets s = omega arith

  -- The steps of a run, but for the resets.
  unfoldable pub moves : {s u : P} → Reach o net cfg t s u → ℕ
  moves initially = 0
  moves (later act r e) = moves r + cost act

  moves-le : {s u : P} (r : Reach o net cfg t s u) → moves r + weight u ≤ weight s
  unfolding moves
  moves-le initially = omega arith
  moves-le {s} {u} (later {u = v} act r e) =
      let paid : cost act + weight u ≤ weight v =
        subst (Costs (cost act) (weight v)) e (advance-Costs act v) in
      omega (arith, moves-le r, paid)

  -- A state that the run can end in.
  pub record Ending (s : P) : Type 0 where
    pub last : P
    pub run : Reach o net cfg t s last
    pub over : AtRest o net cfg t last ⊎ Dies last

  Reach-trans : {s u v : P} → Reach o net cfg t s u → Reach o net cfg t u v → Reach o net cfg t s v
  Reach-trans r initially = r
  Reach-trans r (later act r' e) = later act (Reach-trans r r') e

  works-cost : (act : Action) → act ≢ resets → cost act ≡ 1
  works-cost decodes n = refl
  works-cost publishes n = refl
  works-cost encodes n = refl
  works-cost queues n = refl
  works-cost sends n = refl
  works-cost resets n = absurd (n refl)

  goes_on : (n : ℕ) (s : P) → weight s < n → Ending s
  goes_on zero s small = absurd (omega arith)
  goes_on (suc n) s small = elim (progress s) [
    | inl r ↦ record { last = s; run = initially; over = inl r }
    | inr (inr d) ↦ record { last = s; run = initially; over = inr d }
    | inr (inl a) ↦
        let paid : cost a.act + weight a.after ≤ weight s =
          subst (Costs (cost a.act) (weight s)) a.taken (advance-Costs a.act s) in
        let rest = goes_on n a.after (omega (arith, works-cost a.act a.works)) in
        record {
          last = rest.last;
          run = Reach-trans (later a.act initially a.taken) rest.run;
          over = rest.over;
        }
  ]

  -- However the goroutines are interleaved, they take at most five steps for each frame, the resets of the
  -- count aside, and wherever they are they can go on, to where all is done or Process panics at
  -- the next frame.
  pub Reach-ends :
      (fs : List Frame) (a : Agent o) (h : HepOutputer net) (w : net.World) (s : P)
      → (r : Reach o net cfg t (started o net cfg t fs a h w) s)
      → (moves r ≤ 5 * length fs) × Ending s
  Reach-ends fs a h w s r = (omega (arith, moves-le r), goes_on (suc (weight s)) s (omega arith))
