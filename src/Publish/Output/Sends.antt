-- ===== src/Publish/Output/Sends.antt =====
-- publish/hep.go: a message goes out as one write, and a broken connection is dialled again after 64
-- messages.
use heplify.Common.{
  ℕ, suc, ◌+◌, ◌%◌, ◌<◌, ◌≡◌, refl, ap, ◌∙◌, Bool, true, false, ◌⊎◌, inl, inr, List, [], ◌∷◌,
  Option, none, some, length, drop-all, ltb, le→ltb, ◌==◌, ==_of_ne, ==_of_eq, ◌||◌, not,
  if◌then◌else◌, Bool-cases, ==→eq, arith,
}
use heplify.Common.Bytes.{Bytes}
use heplify.Publish.Output.{
  Transport, Net, default_buf_size, Writer, new_writer, flush_buffered, write_round, write_buffered,
  HepOutputer, connect_server, closed, redialled, re_connect, count_error, send, send_all,
}

module _ (net : Net) where
  open net use {World, Conn, write}

  abbrev pub outputer : Option Conn → Writer net → ℕ → HepOutputer net
  outputer c b k = record { conn = c; writer = b; err_cnt = k }

  -- The bytes of a message are in the buffer; they all go out.
  flush_all :
      (c : Conn) (p : Bytes) (w w' : World)
      → 0 < length p
      → write c p w ≡ (w', (length p, true))
      → flush_buffered net (record { wr = c; buf = p; failed = false }) w ≡ (new_writer net c, w')
  unfolding flush_buffered
  flush_all c p w w' nonempty taken = rw (
    flush_buffered,
    ==_of_ne (length p) 0 (λ e. omega arith),
    taken,
    le→ltb (length p) (length p) (omega arith),
  )

  -- A message of any length that a working connection takes whole goes out as a single write, and the
  -- outputer is as it was.
  pub send_whole :
      (t : Transport) (msg : Bytes) (o : Option Conn) (c : Conn) (k : ℕ) (w w' : World)
      → 0 < length msg
      → write c msg w ≡ (w', (length msg, true))
      → send net t msg (outputer o (new_writer net c) k) w ≡ (outputer o (new_writer net c) k, w')
  unfolding send write_buffered write_round
  send_whole t msg o c k w w' nonempty taken =
      elim (Bool-cases (ltb default_buf_size (length msg))) [
        | inl e ↦ rw (e, taken, drop-all (length msg) msg (omega arith)) refl
        | inr e ↦ rw (e, flush_all c msg w w' nonempty taken)
      ]

  broken : Conn → Bytes → Writer net
  broken c buf = record { wr = c; buf = buf; failed = true }

  send_failed :
      (t : Transport) (msg : Bytes) (o : Option Conn) (c : Conn) (buf : Bytes) (k : ℕ) (w : World)
      → send net t msg (outputer o (record { wr = c; buf = buf; failed = true }) k) w
        ≡ count_error net t (outputer o (record { wr = c; buf = buf; failed = true }) k) w
  unfolding send write_buffered flush_buffered
  send_failed t msg o c buf k w = refl

  -- An error below the 64th is only counted; the 64th dials again.
  count_error-low :
      (t : Transport) (h : HepOutputer net) (w : World)
      → h.err_cnt + 1 < 64
      → count_error net t h w ≡ (record h { err_cnt = h.err_cnt + 1 }, w)
  unfolding count_error
  count_error-low t h w low = rw (==_of_ne ((h.err_cnt + 1) % 64) 0 (λ e. omega arith))

  count_error_64 :
      (t : Transport) (h : HepOutputer net) (w : World)
      → h.err_cnt ≡ 63
      → count_error net t h w ≡ re_connect net t (record h { err_cnt = 0 }) w
  unfolding count_error
  count_error_64 t h w last = rw (==_of_eq ((h.err_cnt + 1) % 64) 0 (omega arith))

  send_all_failed :
      (t : Transport) (o : Option Conn) (c : Conn) (buf : Bytes) (k : ℕ) (w : World)
      (msgs : List Bytes)
      → k < 64
      → length msgs + k ≡ 64
      → send_all net t msgs (outputer o (broken c buf) k) w
        ≡ re_connect net t (outputer o (broken c buf) 0) w
  unfolding send_all broken
  send_all_failed t o c buf k w [] low total = absurd (omega arith)
  send_all_failed t o c buf k w (msg ∷ []) low total = rw (
    send_failed t msg o c buf k w,
    count_error_64 t (outputer o (broken c buf) k) w (omega arith),
  )
  send_all_failed t o c buf k w (msg ∷ next ∷ msgs) low total =
      rw
        (
          send_failed t msg o c buf k w,
          count_error-low t (outputer o (broken c buf) k) w (omega arith),
        )
        (send_all_failed t o c buf (k + 1) w (next ∷ msgs) (omega arith) (omega arith))

  -- Once a write has failed, the messages up to the 64th error are lost without an attempt to write
  -- them; the last of them closes the connection and dials, and if that succeeds the outputer is as new.
  pub send_all-new_writer :
      (t : Transport) (o : Option Conn) (c c' : Conn) (buf : Bytes) (k : ℕ) (w w' : World)
      (msgs : List Bytes)
      → k < 64
      → length msgs + k ≡ 64
      → connect_server net t (closed net o w) ≡ (w', some c')
      → send_all net t msgs (outputer o (record { wr = c; buf = buf; failed = true }) k) w
        ≡ (outputer (some c') (new_writer net c') 0, w')
  unfolding re_connect broken
  send_all-new_writer t o c c' buf k w w' msgs low total dialled =
      send_all_failed t o c buf k w msgs low total
      ∙ ap (redialled net (outputer o (broken c buf) 0)) dialled

  -- A writer that has failed, or has nothing left to write.
  abbrev pub IsFlushed : Writer net → Type 0
  IsFlushed b = (b.failed ≡ true) ⊎ (length b.buf ≡ 0)

  either :
      (b : Bool) (x y : Writer net × World)
      → (b ≡ true → IsFlushed x.0)
      → IsFlushed y.0
      → IsFlushed (if b then x else y).0
  either true x y f h = f refl
  either false x y f h = h

  flush_buffered-IsFlushed : (b : Writer net) (w : World) → IsFlushed (flush_buffered net b w).0
  unfolding flush_buffered
  flush_buffered-IsFlushed b w =
      let (w', (n, taken)) = write b.wr b.buf w in
      either b.failed (b, w) _ (λ e. inl e)
        (either (length b.buf == 0) (b, w) _ (λ e. inr (==→eq (length b.buf) 0 e))
          (either (not taken || ltb n (length b.buf)) _ (record b { buf = [] }, w') (λ e. inl refl)
            (inr refl)))

  abbrev pub IsSound : HepOutputer net → Type 0
  IsSound h = (h.err_cnt < 64) × IsFlushed h.writer

  redialled-IsSound :
      (h : HepOutputer net) (r : World × Option Conn) → IsSound h → IsSound (redialled net h r).0
  redialled-IsSound h (w, none) s = s
  redialled-IsSound h (w, some c) (low, _) = (low, inr refl)

  count_error-IsSound :
      (t : Transport) (h : HepOutputer net) (w : World)
      → IsSound h
      → IsSound (count_error net t h w).0
  unfolding count_error re_connect
  count_error-IsSound t h w (low, flushed) = elim (Bool-cases ((h.err_cnt + 1) % 64 == 0)) [
    | inl e ↦ rw e (
        redialled-IsSound (record h { err_cnt = 0 }) (connect_server net t (closed net h.conn w))
          (omega arith, flushed))
    | inr e ↦ rw e (ground arith, flushed)
  ]

  -- Whatever the network does, `Send` keeps the error count below 64, and leaves no bytes in a writer
  -- that still works.
  pub send-IsSound :
      (t : Transport) (msg : Bytes) (h : HepOutputer net) (w : World)
      → h.err_cnt < 64
      → IsSound (send net t msg h w).0
  unfolding send
  send-IsSound t msg h w low =
      let r = write_buffered net (suc (suc (length msg))) msg h.writer w in
      let f = flush_buffered net r.0 r.1 in
      let sound : IsSound (record h { writer = f.0 }) = (low, flush_buffered-IsFlushed r.0 r.1) in
      elim (Bool-cases f.0.failed) [
        | inl e ↦ rw e (count_error-IsSound t (record h { writer = f.0 }) f.1 sound)
        | inr e ↦ rw e sound
      ]
