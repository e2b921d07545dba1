-- ===== src/Pipeline/Sequential.antt =====
-- What the pipeline comes to if one frame is handled after the other.
use heplify.Common.{List, [], ◌∷◌, ◌++◌, Option, none, some, ok, err, panic, stuck}
use heplify.Common.Bytes.{Bytes}
use heplify.Publish.Hep.{Packet}
use heplify.Publish.Hep.Encode.{Scratch, encode_hep}
use heplify.Publish.Output.{Transport, Net, HepOutputer, send_all}
use heplify.Decoder.Process.Capture.{Outside, Config, Agent}
use heplify.Decoder.Process.Front.{process}
use heplify.Pipeline.{Frame, Pipeline}

-- What a goroutine holds.
abbrev pub held {ℓ} : {A : Type ℓ} → Option A → List A
held none = []
held (some x) = x ∷ []

-- The messages that `EncodeHEP` makes of packets, call after call.
unfoldable pub encode_all : Scratch → List Packet → List Bytes
encode_all s [] = []
encode_all s (q ∷ qs) = let (m, s') = encode_hep s q in m ∷ encode_all s' qs

module _ (o : Outside) (cfg : Config) where
  -- The packets that `Process` hands on, up to a frame for which it does not return.
  unfoldable pub process_all : List Frame → Agent o → List Packet
  process_all [] a = []
  process_all (f ∷ fs) a = elim (process o cfg f.spare f.bytes f.ci a) [
    | ok (q, a') ↦ held q ++ process_all fs a'
    | err e ↦ []
    | panic ↦ []
    | stuck ↦ []
  ]

module _ (o : Outside) (net : Net) (cfg : Config) (t : Transport) where
  -- The packets and the messages that are on their way, the oldest first.
  abbrev pub packets_left : Pipeline o net cfg t → List Packet
  packets_left s = s.pkt_queue ++ (held s.pkt ++ process_all o cfg s.frames s.decoder)

  abbrev pub messages_left : Pipeline o net cfg t → List Bytes
  messages_left s = s.hep_queue ++ (held s.msg ++ encode_all s.scratch (packets_left s))

  -- The outputer and the network once everything has been sent.
  abbrev pub finish : Pipeline o net cfg t → HepOutputer net × net.World
  finish s = send_all net t (messages_left s) s.outputer s.world
