-- ===== src/Sniffer/Run.antt =====
-- sniffer/sniffer.go: the loop `Run`, over the answers that its data source gives one after the other.
use heplify.Common.{
  ℕ, zero, suc, ◌+◌, ◌-◌, Bool, true, false, not, ◌&&◌, List, [], ◌∷◌, ◌++◌, Option, none, some,
  length, ltb, ◌==◌, if◌then◌else◌,
}
use heplify.Common.Bytes.{Bytes}

-- What `ReadPacketData` gives: the bytes, their time and the time of the clock afterwards; a timeout
-- or an interrupted call; the end of a file, and whether opening it again would succeed; or an error.
pub data Event : Type 0 where
  packet : Bytes → ℕ → ℕ → Event
  interrupted : Event
  end_of_file : Bool → Event
  sniffing_error : Event

pub data SnifferType : Type 0 where
  pcap af_packet : SnifferType

-- The fields of `config.InterfacesConfig` that `Run` and `Reopen` read; `loop` is 0 for no bound.
pub record Config : Type 0 where
  pub sniffer_type : SnifferType
  pub read_file : Bool
  pub write_file : Bool
  pub read_speed : Bool
  pub loop : ℕ

pub data RunError : Type 0 where
  reopening sniffing : RunError

-- The variables of `Run`, the packets given to the worker and to the dump, oldest first, the times
-- slept between packets, and how often the file was opened again.
pub record State : Type 0 where
  pub is_alive : Bool
  pub loop_count : ℕ
  pub last_pkt_time : Option ℕ
  pub ret_error : Option RunError
  pub delivered : List (Bytes × ℕ)
  pub dumped : List (Bytes × ℕ)
  pub slept : List ℕ
  pub reopened : ℕ

abbrev pub started : State
started = record {
  is_alive = true;
  loop_count = 1;
  last_pkt_time = none;
  ret_error = none;
  delivered = [];
  dumped = [];
  slept = [];
  reopened = 0;
}

abbrev pub is_pcap : SnifferType → Bool
is_pcap pcap = true
is_pcap af_packet = false

-- `Reopen`: only for files, and in pcap mode. The new handle is given no filter.
unfoldable pub reopen : Config → Bool → State → State
reopen cfg opens s =
    if is_pcap cfg.sniffer_type && cfg.read_file && opens
    then record s { last_pkt_time = none; reopened = s.reopened + 1 }
    else record s { ret_error = some reopening; is_alive = false }

unfoldable pub at_end : Config → Bool → State → State
unfolding reopen
at_end cfg opens s =
    let counted = record s { loop_count = s.loop_count + 1 } in
    if ltb 0 cfg.loop && ltb cfg.loop (s.loop_count + 1)
    then record counted { is_alive = false }
    else reopen cfg opens counted

-- The wait between two packets of a file; time that goes backwards is not waited for.
unfoldable pub wait : Config → Option ℕ → ℕ → State → State
wait cfg none time s = s
wait cfg (some last) time s =
    if not cfg.read_speed && ltb last time
    then record s { slept = s.slept ++ (time - last) ∷ [] }
    else s

unfoldable pub on_packet : Config → Bytes → ℕ → ℕ → State → State
unfolding wait
on_packet cfg bytes time now s =
    let waited = wait cfg s.last_pkt_time time s in
    let stamped = if cfg.read_speed then time else now in
    let dump = if cfg.write_file then (bytes, time) ∷ [] else [] in
    if length bytes == 0
    then s
    else if cfg.read_file
    then record waited {
      last_pkt_time = some time;
      delivered = waited.delivered ++ (bytes, stamped) ∷ [];
    }
    else record s { dumped = s.dumped ++ dump; delivered = s.delivered ++ (bytes, time) ∷ [] }

-- One round of the loop.
unfoldable pub round : Config → Event → State → State
unfolding on_packet at_end
round cfg (packet bytes time now) s = on_packet cfg bytes time now s
round cfg interrupted s = s
round cfg (end_of_file opens) s = at_end cfg opens s
round cfg sniffing_error s = record s { ret_error = some sniffing; is_alive = false }

-- The loop, which reads no more once the sniffer is not alive.
unfoldable pub run : Config → List Event → State → State
unfolding round
run cfg [] s = s
run cfg (e ∷ events) s = let rest = run cfg events (round cfg e s) in if s.is_alive then rest else s

-- A packet of a file: its bytes, its time, and the time of the clock when it is read.
abbrev pub Recorded : Type 0
Recorded = Bytes × (ℕ × ℕ)

-- What `Run` and `Reopen` call of libpcap for a file: the next answer, and opening the file again. The world
-- holds the handle and the clock.
pub record Offline : Type 1 where
  pub World : Type 0
  pub read_packet_data : World → Event × World
  pub open_offline : World → World

module _ (r : Offline) where
  open r use {World, read_packet_data, open_offline}

  -- The file is opened again at its end; no filter is set. Behind the last end nothing reads.
  abbrev pub opened_again : Event × World → World
  opened_again (end_of_file opens, w) = open_offline w
  opened_again (e, w) = w

  -- The loop over a file, so many rounds at most.
  unfoldable pub run_file : Config → ℕ → World → State → State
  unfolding round
  run_file cfg zero w s = s
  run_file cfg (suc rounds) w s =
      let read = read_packet_data w in
      let rest = run_file cfg rounds (opened_again read) (round cfg read.0 s) in
      if s.is_alive then rest else s
