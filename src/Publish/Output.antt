-- ===== src/Publish/Output.antt =====
-- publish/hep.go: the output to a HEP server over a buffered connection. bufio.Writer is written out;
-- the network is a parameter.
pub mod Sends
mod Runs
use heplify.Common.{
  ℕ, zero, suc, ◌+◌, ◌-◌, ◌%◌, Bool, true, false, List, [], ◌∷◌, ◌++◌, Option, none, some, length,
  take, drop, ltb, ◌==◌, ◌||◌, not, if◌then◌else◌,
}
use heplify.Common.Bytes.{Bytes}

-- `config.Cfg.Network`
pub data Transport : Type 0 where
  udp tcp tls unsupported : Transport

-- What the code calls of net and crypto/tls. A dial may fail; a write answers with the number of bytes
-- taken and whether there was no error.
pub record Net : Type 1 where
  pub World : Type 0
  pub Conn : Type 0
  pub dial : Transport → World → World × Option Conn
  pub write : Conn → Bytes → World → World × (ℕ × Bool)
  pub close : Conn → World → World

-- The size of a bufio.Writer's buffer.
abbrev pub default_buf_size : ℕ
default_buf_size = 4096

module _ (net : Net) where
  open net use {World, Conn, dial, write, close}

  -- `bufio.Writer`: the connection, the bytes buffered, and whether a write has failed.
  pub record Writer : Type 0 where
    pub wr : Conn
    pub buf : Bytes
    pub failed : Bool

  -- `bufio.NewWriter` and `Reset`
  abbrev pub new_writer : Conn → Writer
  new_writer c = record { wr = c; buf = []; failed = false }

  -- `Flush`: a short write is an error, and the bytes that were not taken stay.
  unfoldable pub flush_buffered : Writer → World → Writer × World
  flush_buffered b w =
      let (w', (n, done)) = write b.wr b.buf w in
      let emptied = record b { buf = [] } in
      let kept = record b { buf = drop n b.buf; failed = true } in
      if b.failed
      then (b, w)
      else if length b.buf == 0
      then (b, w)
      else if not done || ltb n (length b.buf)
      then (kept, w')
      else (emptied, w')

  -- One round of the loop of `Write`: straight to the connection if nothing is buffered, else what
  -- fits into the buffer, which is flushed. The rest of the bytes comes back.
  unfoldable pub write_round : Bytes → Writer → World → Writer × (World × Bytes)
  unfolding flush_buffered
  write_round p b w =
      let (w', (n, done)) = write b.wr p w in
      let room = default_buf_size - length b.buf in
      let (b1, w1) = flush_buffered (record b { buf = b.buf ++ take room p }) w in
      if length b.buf == 0
      then (record b { failed = not done }, (w', drop n p))
      else (b1, (w1, drop room p))

  -- `Write`. A connection that takes nothing without an error would keep the loop going: fuel bounds it.
  unfoldable pub write_buffered : ℕ → Bytes → Writer → World → Writer × World
  unfolding write_round
  write_buffered zero p b w = (b, w)
  write_buffered (suc fuel) p b w =
      let (b1, (w1, rest)) = write_round p b w in
      let further = write_buffered fuel rest b1 w1 in
      if b.failed
      then (b, w)
      else if ltb (default_buf_size - length b.buf) (length p)
      then further
      else (record b { buf = b.buf ++ p }, w)

  pub record HepOutputer : Type 0 where
    pub conn : Option Conn
    pub writer : Writer
    pub err_cnt : ℕ

  -- `ConnectServer`
  unfoldable pub connect_server : Transport → World → World × Option Conn
  connect_server unsupported w = (w, none)
  connect_server udp w = dial udp w
  connect_server tcp w = dial tcp w
  connect_server tls w = dial tls w

  abbrev pub opened : World × Option Conn → Option HepOutputer × World
  opened (w, none) = (none, w)
  opened (w, some c) = (some (record { conn = some c; writer = new_writer c; err_cnt = 0 }), w)

  -- `NewHEPOutputer` with `Init`; `none` is an error.
  unfoldable pub new_hep_outputer : Transport → World → Option HepOutputer × World
  unfolding connect_server
  new_hep_outputer t w = opened (connect_server t w)

  abbrev pub closed : Option Conn → World → World
  closed none w = w
  closed (some c) w = close c w

  -- The writer is reset only where the dial succeeds.
  abbrev pub redialled : HepOutputer → World × Option Conn → HepOutputer × World
  redialled h (w, none) = (record h { conn = none }, w)
  redialled h (w, some c) = (record h { conn = some c; writer = new_writer c }, w)

  unfoldable pub re_connect : Transport → HepOutputer → World → HepOutputer × World
  unfolding connect_server
  re_connect t h w = redialled h (connect_server t (closed h.conn w))

  -- What `Send` does after an error.
  unfoldable pub count_error : Transport → HepOutputer → World → HepOutputer × World
  unfolding re_connect
  count_error t h w =
      let counted = record h { err_cnt = h.err_cnt + 1 } in
      let again = re_connect t (record h { err_cnt = 0 }) w in
      if (h.err_cnt + 1) % 64 == 0 then again else (counted, w)

  -- `Send`; the fuel is enough where the connection takes a byte at least in every write without error.
  unfoldable pub send : Transport → Bytes → HepOutputer → World → HepOutputer × World
  unfolding write_buffered flush_buffered count_error
  send t msg h w =
      let (b1, w1) = write_buffered (suc (suc (length msg))) msg h.writer w in
      let (b2, w2) = flush_buffered b1 w1 in
      let h2 = record h { writer = b2 } in
      let after = count_error t h2 w2 in if b2.failed then after else (h2, w2)

  -- The messages that `Start` takes from the queue, in order.
  unfoldable pub send_all : Transport → List Bytes → HepOutputer → World → HepOutputer × World
  unfolding send
  send_all t [] h w = (h, w)
  send_all t (msg ∷ msgs) h w = let (h1, w1) = send t msg h w in send_all t msgs h1 w1
