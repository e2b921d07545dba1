-- ===== src/Sniffer/Runs.antt =====
-- sniffer: the theorems at concrete inputs.
use heplify.Common.{
  ℕ, ◌+◌, false, ◌&&◌, not, if◌then◌else◌, Bool, ok, ◌-◌, ltb, length, ◌≡◌, refl, some, true, none,
  List, [], ◌∷◌, arith,
}
use heplify.Sniffer.Buffers.{int_32, int_64, quotient, frame_size, afpacket_compute_size}
use heplify.Sniffer.Run.{
  Event, packet, interrupted, end_of_file, Recorded, Offline, run_file, sniffing_error, started,
  wait, on_packet, at_end, round, run,
}
use heplify.Sniffer.Passes.{from_file, Reads}
use heplify.Sniffer.Files.{Serves, accepted, rounds_of, Finished, run_file-repeated}
use heplify.Common.Bytes.{Bytes}
use heplify.Sniffer.Dump.{
  panicked, Received, to_dump, tick, stop_signal, without, move_pcap, create_pcap, write_packet,
  closing, receive, receive_all, dump_pcap,
}
use heplify.Sniffer.Rotation.{packets_of}

-- The ring's size by default: 32 MB for packets of 8192 bytes.
afpacket_compute_size_default :
    afpacket_compute_size int_64 32 8192 4096 ≡ ok (12288, (1572864, 21))
unfolding afpacket_compute_size frame_size quotient
afpacket_compute_size_default = refl

-- A block that is not a multiple of the page size.
afpacket_compute_size_unaligned : afpacket_compute_size int_64 32 800 4096 ≡ ok (819, (104832, 320))
unfolding afpacket_compute_size frame_size quotient
afpacket_compute_size_unaligned = refl

-- With 32-bit ints a buffer of 2048 MB is a negative number of bytes, and so is the number of blocks.
afpacket_compute_size_wrapped :
    afpacket_compute_size int_32 2048 8192 4096 ≡ ok (12288, (1572864, 4294967296 - 1365))
unfolding afpacket_compute_size frame_size quotient
afpacket_compute_size_wrapped = refl

-- A file of two packets, three seconds apart. Packets of more than one byte pass the filter.
abbrev two_packets : List (Bytes × ℕ)
two_packets = (1 ∷ 2 ∷ [], 10) ∷ (3 ∷ [], 13) ∷ []

abbrev accepts : Bytes → Bool
accepts bytes = ltb 1 (length bytes)

-- A handle: whether it has the filter, the clock, and what is left of the file.
abbrev Handle : Type 0
Handle = Bool × (ℕ × List (Bytes × ℕ))

abbrev read_next : Bool → ℕ → List (Bytes × ℕ) → Event × Handle
read_next filtered clock [] = (end_of_file true, (filtered, (clock, [])))
read_next filtered clock ((bytes, time) ∷ ps) =
    let further = read_next filtered clock ps in
    if filtered && not (accepts bytes)
    then further
    else (packet bytes time clock, (filtered, (clock + 1, ps)))

abbrev two_packets_file : Offline
two_packets_file = record {
  World = Handle;
  read_packet_data = λ h. read_next h.0 h.1.0 h.1.1;
  open_offline = λ h. (false, (h.1.0, two_packets));
}

abbrev first_reading : List Recorded
first_reading = (1 ∷ 2 ∷ [], (10, 100)) ∷ []

abbrev second_reading : List Recorded
second_reading = (1 ∷ 2 ∷ [], (10, 101)) ∷ (3 ∷ [], (13, 102)) ∷ []

-- The packet that the filter does not accept is given once the file was opened again.
run_file-repeated_example :
    Finished accepts false
      ((1 ∷ 2 ∷ []) ∷ (3 ∷ []) ∷ [])
      first_reading
      (second_reading ∷ [])
      (run_file two_packets_file (from_file false 2) 9 (true, (100, two_packets)) started)
unfolding Serves Reads accepted rounds_of
run_file-repeated_example =
    run_file-repeated two_packets_file accepts false ((1 ∷ 2 ∷ []) ∷ (3 ∷ []) ∷ []) first_reading
      (second_reading ∷ []) (true, (100, two_packets)) 9
      (
        (true, (101, [])),
        ((true, (101, (3 ∷ [], 13) ∷ [])), refl, refl),
        (
          (false, (103, [])),
          ((false, (102, (3 ∷ [], 13) ∷ [])), refl, ((false, (103, [])), refl, refl)),
          tt,
        ),
      )
      (omega arith) refl (refl, tt) (omega arith)

-- Without ReadSpeed the loop waits between the packets, and the clock's times are given.
run_waits :
    run
      (from_file false 1)
      (packet (1 ∷ 2 ∷ []) 10 100 ∷ packet (3 ∷ []) 13 104 ∷ end_of_file true ∷ [])
      started
    ≡ record started {
      is_alive = false;
      loop_count = 2;
      last_pkt_time = some 13;
      delivered = (1 ∷ 2 ∷ [], 100) ∷ (3 ∷ [], 104) ∷ [];
      slept = 3 ∷ [];
    }
unfolding run round on_packet at_end wait
run_waits = refl

-- Two files and what was left of a run before.
abbrev two_files : List Received
two_files =
    to_dump (1 ∷ [], 5) true
    ∷ tick 160 true true
    ∷ to_dump (2 ∷ [], 170) true
    ∷ stop_signal 180 true
    ∷ []

-- A file that cannot be moved at a tick is emptied by the next creation.
dump_pcap_unmoved :
    packets_of
      (dump_pcap 100 true true none []
        (to_dump (1 ∷ [], 5) true ∷ tick 160 false true ∷ stop_signal 180 true ∷ [])).files
    ≡ []
unfolding dump_pcap receive_all receive closing write_packet move_pcap create_pcap without
    packets_of
dump_pcap_unmoved = refl

-- A signal in the second of a tick: the file that the tick left is replaced by a later one of its name.
dump_pcap_same_second :
    packets_of
      (dump_pcap 100 true true none []
        (to_dump (1 ∷ [], 5) true ∷ tick 160 true true ∷ stop_signal 160 true ∷ [])).files
    ≡ []
unfolding dump_pcap receive_all receive closing write_packet move_pcap create_pcap without
    packets_of
dump_pcap_same_second = refl

-- After a file that cannot be created, the next packet is written through nil.
dump_pcap_not_created :
    (dump_pcap 100 true false none [] (to_dump (1 ∷ [], 5) true ∷ [])).status ≡ panicked
unfolding dump_pcap receive_all receive closing write_packet move_pcap create_pcap
dump_pcap_not_created = refl

-- A failed write closes the writer, and what comes before the next tick is lost.
dump_pcap_failed_write :
    packets_of
      (dump_pcap 100 true true none []
        (to_dump (1 ∷ [], 5) false ∷ to_dump (2 ∷ [], 6) true ∷ stop_signal 180 true ∷ [])).files
    ≡ []
unfolding dump_pcap receive_all receive closing write_packet move_pcap create_pcap without
    packets_of
dump_pcap_failed_write = refl

-- Two packets on an interface, a timeout and an error.
abbrev on_interface : List Event
on_interface =
    packet (1 ∷ []) 5 6
    ∷ interrupted
    ∷ packet (2 ∷ []) 170 171
    ∷ sniffing_error
    ∷ packet (3 ∷ []) 172 173
    ∷ []
