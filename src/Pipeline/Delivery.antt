-- ===== src/Pipeline/Delivery.antt =====
-- What a HEP server gets of the packets that `Process` hands on, over a connection that works.
use mathlib.Core.Path.{ap₂}
use mathlib.Core.List.{map}
use heplify.Common.{
  ℕ, ◌+◌, ◌<◌, ◌≡◌, refl, ap, ◌∙◌, List, [], ◌∷◌, Option, none, some, length, All, true, ok, arith,
}
use heplify.Common.Bytes.{Bytes}
use heplify.Publish.Hep.{Packet}
use heplify.Publish.Hep.Encode.{
  Scratch, Buffer, initial_scratch, write_bytes_chunk, write_cid, make_hep_chuncks, encode_hep,
}
use heplify.Publish.Hep.Decode.{decode_hep}
use heplify.Publish.Hep.Chunks.{chunks, frames, IsPair, encode_hep-message}
use heplify.Publish.Hep.RoundTrip.{IsPacket, received, decode_hep-encode_hep}
use heplify.Publish.Output.{Transport, Net, new_writer, send_all}
use heplify.Publish.Output.Sends.{outputer, send_whole}
use heplify.Decoder.Process.Capture.{Outside, Config, Agent}
use heplify.Pipeline.{Frame, Pipeline, started, Reach}
use heplify.Pipeline.Sequential.{encode_all, process_all}
use heplify.Pipeline.Finish.{AtRest, Reach-sequential}

write_cid-IsPair :
    (cid : Option Bytes) (b : Buffer)
    → IsPair b.scratch.hep_len
    → IsPair (write_cid cid b).scratch.hep_len
unfolding write_cid write_bytes_chunk
write_cid-IsPair none b two = two
write_cid-IsPair (some cid) b two = refl

-- The scratch space holds a length of two bytes after every call.
encode_hep-IsPair : (s : Scratch) (h : Packet) → IsPair ((encode_hep s h).1).hep_len
unfolding encode_hep make_hep_chuncks write_bytes_chunk
encode_hep-IsPair s h = write_cid-IsPair h.cid _ refl

-- A packet that fits a message.
abbrev pub Fits : Packet → Type 0
Fits q = IsPacket q × (6 + length (frames (chunks q)) < 65536)

encode_all-decode :
    (s : Scratch) (spare : Bytes) (qs : List Packet)
    → IsPair s.hep_len
    → All Fits qs
    → map (decode_hep spare) (encode_all s qs) ≡ map (λ q. ok (received q)) qs
unfolding encode_all
encode_all-decode s spare [] two fit = refl
encode_all-decode s spare (q ∷ qs) two ((p, small), fit) =
    ap₂ ◌∷◌ (decode_hep-encode_hep s q spare two p small)
      (encode_all-decode (encode_hep s q).1 spare qs (encode_hep-IsPair s q) fit)

pub message-nonempty : (s : Scratch) (q : Packet) → IsPair s.hep_len → 0 < length (encode_hep s q).0
message-nonempty s q two = rw (encode_hep-message s q two) (omega arith)

encode_all-nonempty :
    (s : Scratch) (qs : List Packet) → IsPair s.hep_len → All (λ m. 0 < length m) (encode_all s qs)
unfolding encode_all
encode_all-nonempty s [] two = tt
encode_all-nonempty s (q ∷ qs) two =
    (message-nonempty s q two, encode_all-nonempty (encode_hep s q).1 qs (encode_hep-IsPair s q))

module _ (net : Net) where
  open net use {World, Conn, write}

  -- The network after messages have been written one after the other.
  unfoldable pub put_all : (Bytes → World → World) → List Bytes → World → World
  put_all put [] w = w
  put_all put (m ∷ ms) w = put_all put ms (put m w)

  -- A connection that takes every write whole.
  abbrev pub Takes : Conn → (Bytes → World → World) → Type 0
  Takes c put = (p : Bytes) (w : World) → 0 < length p → write c p w ≡ (put p w, (length p, true))

  send_all-put_all :
      (t : Transport) (ms : List Bytes) (c : Conn) (put : Bytes → World → World) (k : ℕ) (w : World)
      → Takes c put
      → All (λ m. 0 < length m) ms
      → send_all net t ms (outputer net (some c) (new_writer net c) k) w
        ≡ (outputer net (some c) (new_writer net c) k, put_all put ms w)
  unfolding send_all put_all
  send_all-put_all t [] c put k w takes full = refl
  send_all-put_all t (m ∷ ms) c put k w takes (some_bytes, full) =
      rw (send_whole net t m (some c) c k w (put m w) some_bytes (takes m w some_bytes))
        (send_all-put_all t ms c put k (put m w) takes full)

-- The outputer has a connection that takes every write whole, and the packets that `Process` hands on fit
-- their fields and messages. However the goroutines are interleaved: once nothing is left to do, one
-- message has been written for each of these packets, in their order and nothing else, and `DecodeHEP`
-- reads from it all fields of the packet that are sent.
pub Reach-delivers :
    (o : Outside) (net : Net) (cfg : Config) (t : Transport) (fs : List Frame) (a : Agent o)
    (c : net.Conn) (put : Bytes → net.World → net.World) (k : ℕ) (w : net.World) (spare : Bytes)
    → (s : Pipeline o net cfg t) → Takes net c put
    → All Fits (process_all o cfg fs a)
    → Reach o net cfg t (started o net cfg t fs a (outputer net (some c) (new_writer net c) k) w) s
    → AtRest o net cfg t s
    → (ms : List Bytes) × (s.world ≡ put_all net put ms w)
      × (map (decode_hep spare) ms ≡ map (λ q. ok (received q)) (process_all o cfg fs a))
Reach-delivers o net cfg t fs a c put k w spare s takes fit r rest =
    let ms = encode_all initial_scratch (process_all o cfg fs a) in
    let full = encode_all-nonempty initial_scratch (process_all o cfg fs a) refl in
    (
      ms,
      ap (λ e. e.1)
          (Reach-sequential o net cfg t fs a (outputer net (some c) (new_writer net c) k) w s r rest
            ∙ send_all-put_all net t ms c put k w takes full),
      encode_all-decode initial_scratch spare (process_all o cfg fs a) refl fit,
    )
