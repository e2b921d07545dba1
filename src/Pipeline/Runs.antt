-- ===== src/Pipeline/Runs.antt =====
-- From the captured frame to the network: the theorems at concrete inputs.
use heplify.Common.{
  ◌*◌, ◌≤◌, ◌≡◌, refl, ap, sym, All, true, false, List, [], ◌∷◌, Option, none, some, length, ok,
  arith,
}
use mathlib.Core.Path.{subst}
use mathlib.Core.List.{map}
use heplify.Common.Bytes.{Bytes, bytes_eq}
use heplify.Publish.Hep.Chunks.{chunks}
use heplify.Publish.Hep.{Packet}
use heplify.Publish.Hep.Encode.{Scratch, initial_scratch, encode_hep}
use heplify.Publish.Hep.Decode.{decode_hep}
use heplify.Publish.Hep.RoundTrip.{received}
use heplify.Publish.Output.{udp, Net, new_writer, HepOutputer, send_all}
use heplify.Publish.Output.Sends.{outputer, send_whole}
use heplify.Decoder.Process.Capture.{Agent}
use heplify.Decoder.Process.Front.{process}
use heplify.Decoder.Process.Sample.{
  outside, settings, info, agent, bye_frame, sent, counted, bye_sent,
}
use heplify.Pipeline.{
  Frame, enqueue, decodes, publishes, encodes, queues, sends, Pipeline, started, decode_frame,
  send_packet, receive_packet, send_message, receive_message, advance, Reach, initially, later,
}
use heplify.Pipeline.Sequential.{encode_all, process_all}
use heplify.Pipeline.Finish.{AtRest, Reach-sequential}
use heplify.Pipeline.Progress.{moves, Ending, Reach-ends}
use heplify.Pipeline.Delivery.{Fits, message-nonempty, put_all, Reach-delivers}

-- A network that keeps what was written.
abbrev keeping : Net
keeping = record {
  World = List Bytes;
  Conn = Bytes;
  dial = λ t w. (w, some []);
  write = λ c p w. (p ∷ w, (length p, true));
  close = λ c w. w;
}

abbrev put : Bytes → List Bytes → List Bytes
put p w = p ∷ w

abbrev connected : HepOutputer keeping
connected = outputer keeping (some []) (new_writer keeping []) 0

abbrev frames : List Frame
frames = record { bytes = bye_frame; ci = info; spare = [] } ∷ []

abbrev State : Type 0
State = Pipeline outside keeping (settings false) udp

abbrev first : State
first = started outside keeping (settings false) udp frames (agent false) connected []

abbrev after : Agent outside
after = counted (record (agent false) { cseq = some (66 ∷ 89 ∷ 69 ∷ []) })

abbrev decoded : State
decoded = record first { frames = []; decoder = after; pkt = some sent }

decode_frame_ok :
    (f : Frame) (fs : List Frame) (s : State) (q : Option Packet) (a : Agent outside)
    → process outside (settings false) f.spare f.bytes f.ci s.decoder ≡ ok (q, a)
    → decode_frame outside keeping (settings false) udp none (f ∷ fs) s
      ≡ some (record s { frames = fs; decoder = a; pkt = q })
unfolding decode_frame bytes_eq
decode_frame_ok f fs s q a e = rw (decode_frame, e) refl

decodes_first : advance outside keeping (settings false) udp decodes first ≡ some decoded
unfolding advance
decodes_first =
    decode_frame_ok (record { bytes = bye_frame; ci = info; spare = [] }) [] first (some sent) after
      bye_sent

process_all_frames : process_all outside (settings false) frames (agent false) ≡ sent ∷ []
unfolding process_all
process_all_frames = rw (process_all, bye_sent) refl

-- The message of the packet, and the scratch space behind it.
abbrev wire : Bytes × Scratch
wire = encode_hep initial_scratch sent

abbrev published : State
published = record decoded { pkt = none; pkt_queue = sent ∷ [] }

abbrev encoded : State
encoded = record published { pkt_queue = []; pub_count = 1; scratch = wire.1; msg = some wire.0 }

abbrev queued : State
queued = record encoded { msg = none; hep_queue = wire.0 ∷ [] }

abbrev last : State
last = record queued { hep_queue = []; world = wire.0 ∷ [] }

sends_last : advance outside keeping (settings false) udp sends queued ≡ some last
unfolding advance receive_message
sends_last =
    ap
      (λ (hw : HepOutputer keeping × List Bytes).
        some (record queued { hep_queue = []; outputer = hw.0; world = hw.1 }))
      (send_whole keeping udp wire.0 (some []) [] 0 [] (wire.0 ∷ [])
        (message-nonempty initial_scratch sent refl) refl)

reached : Reach outside keeping (settings false) udp first last
unfolding advance send_packet receive_packet send_message enqueue
reached =
    later sends
      (later queues
        (later encodes (later publishes (later decodes initially decodes_first) refl) refl) refl)
      sends_last

at_rest : AtRest outside keeping (settings false) udp last
at_rest = record {
  no_frames = refl;
  no_pkt = refl;
  no_packets = refl;
  no_msg = refl;
  no_messages = refl;
}

Reach-sequential_example :
    (last.outputer, last.world)
    ≡ send_all keeping udp
        (encode_all initial_scratch (process_all outside (settings false) frames (agent false)))
        connected
        []
Reach-sequential_example =
    Reach-sequential outside keeping (settings false) udp frames (agent false) connected [] last
      reached at_rest

Reach-ends_example :
    (moves outside keeping (settings false) udp reached ≤ 5 * 1)
    × Ending outside keeping (settings false) udp last
Reach-ends_example =
    Reach-ends outside keeping (settings false) udp frames (agent false) connected [] last reached

sent-Fits : Fits sent
unfolding chunks
sent-Fits = (omega arith, omega arith)

Reach-delivers_example :
    (ms : List Bytes) × (last.world ≡ put_all keeping put ms [])
    × (map (decode_hep []) ms
        ≡ map (λ q. ok (received q)) (process_all outside (settings false) frames (agent false)))
Reach-delivers_example =
    Reach-delivers outside keeping (settings false) udp frames (agent false) [] put 0 [] [] last
      (λ p w h. refl) (subst (All Fits) (sym process_all_frames) (sent-Fits, tt)) reached at_rest
