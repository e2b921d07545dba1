-- ===== src/Publish/Output/Runs.antt =====
-- publish/hep.go: the theorems at concrete inputs.
use heplify.Common.{ℕ, suc, ◌≡◌, refl, true, List, [], ◌∷◌, some, length, arith}
use heplify.Common.Bytes.{Bytes}
use heplify.Publish.Output.{udp, Net, new_writer, HepOutputer, connect_server, send, send_all}
use heplify.Publish.Output.Sends.{outputer, IsSound, send_all-new_writer, send-IsSound}

-- A network that keeps what was written, and numbers its connections.
abbrev recorder : Net
recorder = record {
  World = ℕ × List Bytes;
  Conn = ℕ;
  dial = λ t w. ((suc w.0, w.1), some w.0);
  write = λ c p w. ((w.0, p ∷ w.1), (length p, true));
  close = λ c w. w;
}

abbrev messages : List Bytes
messages = (1 ∷ []) ∷ (2 ∷ []) ∷ []

abbrev counter : HepOutputer recorder
counter = outputer recorder (some 0) (record { wr = 0; buf = 7 ∷ []; failed = true }) 62

send_all-new_writer_example :
    send_all recorder udp messages counter (1, [])
    ≡ (outputer recorder (some 1) (new_writer recorder 1) 0, (2, []))
unfolding connect_server
send_all-new_writer_example =
    send_all-new_writer recorder udp (some 0) 0 1 (7 ∷ []) 62 (1, []) (2, []) messages (omega arith)
      refl refl

send-IsSound_example : IsSound recorder (send recorder udp (1 ∷ []) counter (1, [])).0
send-IsSound_example = send-IsSound recorder udp (1 ∷ []) counter (1, []) (omega arith)
