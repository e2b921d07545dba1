-- ===== src/Sniffer/Dump.antt =====
-- sniffer/pcap.go: the loop `dumpPcap` that writes packets to a file and rotates it, without Zip.
use heplify.Common.{
  ℕ, Bool, true, List, [], ◌∷◌, ◌++◌, Option, none, some, ◌==◌, if◌then◌else◌, not,
}
use heplify.Common.Bytes.{Bytes}

-- A `DumpPacket`: the bytes and the time of capture.
abbrev pub DumpPacket : Type 0
DumpPacket = Bytes × ℕ

-- The variable w: nil after a failed `createPcap`, and closed after a failed write.
pub data PcapWriter : Type 0 where
  nil_writer open_writer closed_writer : PcapWriter

pub data Status : Type 0 where
  running exited panicked : Status

-- The writer; the packets in the file with the temporary name, if it exists; the packets of the files in
-- the output path under their names, which are dates up to the second, the newest last.
pub record Dump : Type 0 where
  pub writer : PcapWriter
  pub temp : Option (List DumpPacket)
  pub files : List (ℕ × List DumpPacket)
  pub status : Status

-- What the loop receives, with what the system answers: a packet and whether it can be written; the time
-- of a tick and whether the file can be moved and created; the time of a signal and whether the file can
-- be moved.
pub data Received : Type 0 where
  to_dump : DumpPacket → Bool → Received
  tick : ℕ → Bool → Bool → Received
  stop_signal : ℕ → Bool → Received

-- The files but for one name.
unfoldable pub without : ℕ → List (ℕ × List DumpPacket) → List (ℕ × List DumpPacket)
without name [] = []
without name ((n, ps) ∷ files) =
    let rest = without name files in if n == name then rest else (n, ps) ∷ rest

-- `movePcap`: a file of the same name is replaced; it is no error if there is nothing to move.
unfoldable pub move_pcap : ℕ → Bool → Dump → Dump
unfolding without
move_pcap now moves s =
    let moved : Option (List DumpPacket) → Dump = λ t. elim t [
      | none ↦ s
      | some ps ↦ record s { temp = none; files = without now s.files ++ (now, ps) ∷ [] }
    ] in
    if moves then moved s.temp else s

-- `createPcap`: a file of that name is emptied.
unfoldable pub create_pcap : Bool → Dump → Dump
create_pcap creates s =
    if creates
    then record s { writer = open_writer; temp = some [] }
    else record s { writer = nil_writer }

abbrev add_packet : DumpPacket → Option (List DumpPacket) → Option (List DumpPacket)
add_packet p none = none
add_packet p (some ps) = some (ps ++ p ∷ [])

-- A write through a closed writer fails, and the writer is closed once more.
unfoldable pub write_packet : DumpPacket → Bool → PcapWriter → Dump → Dump
write_packet p writes nil_writer s = record s { status = panicked }
write_packet p writes closed_writer s = s
write_packet p writes open_writer s =
    if writes then record s { temp = add_packet p s.temp } else record s { writer = closed_writer }

-- `w.Close()`, and what follows it if w is not nil.
unfoldable pub closing : (Dump → Dump) → PcapWriter → Dump → Dump
closing next nil_writer s = record s { status = panicked }
closing next open_writer s = next (record s { writer = closed_writer })
closing next closed_writer s = next s

-- One case of the select.
unfoldable pub receive : Received → Dump → Dump
unfolding write_packet closing
receive (to_dump p writes) s = write_packet p writes s.writer s
receive (tick now moves creates) s =
    closing (λ c. create_pcap creates (move_pcap now moves c)) s.writer s
receive (stop_signal now moves) s =
    closing (λ c. record (move_pcap now moves c) { status = exited }) s.writer s

abbrev is_running : Status → Bool
is_running running = true
is_running exited = not true
is_running panicked = not true

unfoldable pub receive_all : List Received → Dump → Dump
unfolding receive
receive_all [] s = s
receive_all (r ∷ rs) s =
    let rest = receive_all rs (receive r s) in if is_running s.status then rest else s

-- `dumpPcap`, with what a previous run left under the temporary name.
unfoldable pub dump_pcap :
    ℕ → Bool → Bool → Option (List DumpPacket) → List (ℕ × List DumpPacket) → List Received → Dump
unfolding move_pcap create_pcap receive_all
dump_pcap now moves creates left files rs =
    let s : Dump = record { writer = nil_writer; temp = left; files = files; status = running } in
    receive_all rs (create_pcap creates (move_pcap now moves s))
