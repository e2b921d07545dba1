-- ===== src/Pipeline.antt =====
-- From the captured frame to the network: sniffer/sniffer.go `OnPacket`, publish/publisher.go and the
-- queue of publish/hep.go, as goroutines that are interleaved. The messages are HEP3, not Protobuf.
pub mod Sequential
pub mod Finish
pub mod Progress
pub mod Delivery
mod Runs
use heplify.Common.{
  ℕ, ◌+◌, ◌≡◌, List, [], ◌∷◌, ◌++◌, Option, none, some, length, ltb, if◌then◌else◌, Outcome, ok,
  err, panic, stuck,
}
use heplify.Common.Bytes.{Bytes}
use heplify.Publish.Hep.{Packet}
use heplify.Publish.Hep.Encode.{Scratch, initial_scratch, encode_hep}
use heplify.Publish.Output.{Transport, Net, HepOutputer, send}
use heplify.Decoder.Process.Capture.{Outside, Config, CaptureInfo, Agent}
use heplify.Decoder.Process.Front.{process}

-- A frame as `Run` gives it to the worker, and what lies behind its UDP payload in its array.
pub record Frame : Type 0 where
  pub bytes : Bytes
  pub ci : CaptureInfo
  pub spare : Bytes

-- `make(chan *decoder.Packet, 20000)` and `make(chan []byte, 20000)`
abbrev pub queue_size : ℕ
queue_size = 20000

-- A send on a buffered channel: it blocks while the channel is full.
unfoldable pub enqueue {ℓ} : {A : Type ℓ} → A → List A → Option (List A)
enqueue x xs = if ltb (length xs) queue_size then some (xs ++ x ∷ []) else none

-- What a goroutine does next.
pub data Action : Type 0 where
  decodes publishes encodes queues sends resets : Action

module _ (o : Outside) (net : Net) (cfg : Config) (t : Transport) where
  open net use {World}

  -- The frames to come and the decoder, with the packet that `PublishEvent` has yet to put into the queue;
  -- the publisher, with the message that `Output` has yet to put into the next queue; the outputer.
  pub record Pipeline : Type 0 where
    pub frames : List Frame
    pub decoder : Agent o
    pub pkt : Option Packet
    pub pkt_queue : List Packet
    pub pub_count : ℕ
    pub scratch : Scratch
    pub msg : Option Bytes
    pub hep_queue : List Bytes
    pub outputer : HepOutputer net
    pub world : World

  -- Before the first frame.
  abbrev pub started : List Frame → Agent o → HepOutputer net → World → Pipeline
  started frames decoder outputer world = record {
    frames = frames;
    decoder = decoder;
    pkt = none;
    pkt_queue = [];
    pub_count = 0;
    scratch = initial_scratch;
    msg = none;
    hep_queue = [];
    outputer = outputer;
    world = world;
  }

  -- `MainWorker.OnPacket` up to `PublishEvent`. If `Process` panics, so does the program.
  unfoldable pub decode_frame : Option Packet → List Frame → Pipeline → Option Pipeline
  decode_frame (some q) fs s = none
  decode_frame none [] s = none
  decode_frame none (f ∷ fs) s = elim (process o cfg f.spare f.bytes f.ci s.decoder) [
    | ok (q, a) ↦ some (record s { frames = fs; decoder = a; pkt = q })
    | err e ↦ none
    | panic ↦ none
    | stuck ↦ none
  ]

  -- `PublishEvent`
  unfoldable pub send_packet : Option Packet → Pipeline → Option Pipeline
  unfolding enqueue
  send_packet none s = none
  send_packet (some q) s = elim (enqueue q s.pkt_queue) [
    | none ↦ none
    | some qs ↦ some (record s { pkt = none; pkt_queue = qs })
  ]

  -- A round of `Publisher.Start` up to `Output`.
  unfoldable pub receive_packet : Option Bytes → List Packet → Pipeline → Option Pipeline
  receive_packet (some m) qs s = none
  receive_packet none [] s = none
  receive_packet none (q ∷ qs) s =
      let (m, scratch) = encode_hep s.scratch q in
      some
        (record s { pkt_queue = qs; pub_count = s.pub_count + 1; scratch = scratch; msg = some m })

  -- `HEPOutputer.Output`
  unfoldable pub send_message : Option Bytes → Pipeline → Option Pipeline
  unfolding enqueue
  send_message none s = none
  send_message (some m) s = elim (enqueue m s.hep_queue) [
    | none ↦ none
    | some ms ↦ some (record s { msg = none; hep_queue = ms })
  ]

  -- A round of `HEPOutputer.Start`.
  unfoldable pub receive_message : List Bytes → Pipeline → Option Pipeline
  receive_message [] s = none
  receive_message (m ∷ ms) s =
      let (h, w) = send net t m s.outputer s.world in
      some (record s { hep_queue = ms; outputer = h; world = w })

  -- A step of a goroutine; `none` where it waits. The last is the reset by `printStats`.
  unfoldable pub advance : Action → Pipeline → Option Pipeline
  unfolding decode_frame send_packet receive_packet send_message receive_message
  advance decodes s = decode_frame s.pkt s.frames s
  advance publishes s = send_packet s.pkt s
  advance encodes s = receive_packet s.msg s.pkt_queue s
  advance queues s = send_message s.msg s
  advance sends s = receive_message s.hep_queue s
  advance resets s = some (record s { pub_count = 0 })

  -- The goroutines take their steps in any order.
  pub data Reach (s : Pipeline) : Pipeline → Type 0 where
    initially : Reach s s
    later : {u v : Pipeline} (act : Action) → Reach s u → advance act u ≡ some v → Reach s v
