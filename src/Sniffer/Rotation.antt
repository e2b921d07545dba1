-- ===== src/Sniffer/Rotation.antt =====
-- sniffer/pcap.go: the files of a dump that is rotated hold what was received.
use heplify.Common.{
  ℕ, ◌+◌, ◌≤◌, ◌<◌, ◌≡◌, refl, sym, ap, ◌∙◌, true, List, [], ◌∷◌, ◌++◌, append_assoc, append-nil,
  Option, none, some, ==_of_ne, All, arith,
}
use heplify.Sniffer.Dump.{
  DumpPacket, open_writer, closed_writer, running, exited, Dump, Received, to_dump, tick,
  stop_signal, without, move_pcap, create_pcap, write_packet, closing, receive, receive_all,
  dump_pcap,
}

-- The packets of the files, the oldest first.
unfoldable pub packets_of : List (ℕ × List DumpPacket) → List DumpPacket
packets_of [] = []
packets_of ((n, ps) ∷ files) = ps ++ packets_of files

-- The packets received up to the signal.
unfoldable pub received_of : List Received → List DumpPacket
received_of [] = []
received_of (to_dump p writes ∷ rs) = p ∷ received_of rs
received_of (tick now moves creates ∷ rs) = received_of rs
received_of (stop_signal now moves ∷ rs) = []

-- The system does all that it is asked for, the time goes on from one file to the next, and a signal comes.
unfoldable pub Works : ℕ → List Received → Type 0
Works last [] = ⊥
Works last (to_dump p writes ∷ rs) = (writes ≡ true) × Works last rs
Works last (tick now moves creates ∷ rs) =
    (last < now) × (moves ≡ true) × (creates ≡ true) × Works now rs
Works last (stop_signal now moves ∷ rs) = (last < now) × (moves ≡ true)

abbrev pub NamedBelow : ℕ → ℕ × List DumpPacket → Type 0
NamedBelow last (n, _) = n < last

packets_of-append :
    (files more : List (ℕ × List DumpPacket))
    → packets_of (files ++ more) ≡ packets_of files ++ packets_of more
unfolding packets_of
packets_of-append [] more = refl
packets_of-append ((n, ps) ∷ files) more =
    ap (ps ++◌) (packets_of-append files more)
    ∙ sym (append_assoc ps (packets_of files) (packets_of more))

without-new :
    (now : ℕ) (files : List (ℕ × List DumpPacket))
    → All (NamedBelow now) files
    → without now files ≡ files
unfolding without
without-new now [] below = refl
without-new now ((n, ps) ∷ files) (lt, below) =
    rw (==_of_ne n now (omega arith)) (ap ((n, ps) ∷◌) (without-new now files below))

NamedBelow-later :
    (a b : ℕ) (files : List (ℕ × List DumpPacket))
    → a ≤ b
    → All (NamedBelow a) files
    → All (NamedBelow b) files
NamedBelow-later a b [] le below = tt
NamedBelow-later a b ((n, ps) ∷ files) le (lt, below) =
    (omega arith, NamedBelow-later a b files le below)

NamedBelow-moved :
    (now : ℕ) (files : List (ℕ × List DumpPacket)) (ps : List DumpPacket)
    → All (NamedBelow now) files
    → All (NamedBelow (now + 1)) (files ++ (now, ps) ∷ [])
NamedBelow-moved now [] ps below = (omega arith, tt)
NamedBelow-moved now ((n, qs) ∷ files) ps (lt, below) =
    (omega arith, NamedBelow-moved now files ps below)

-- A dump of which the writer is open.
abbrev writing : List DumpPacket → List (ℕ × List DumpPacket) → Dump
writing ps files = record { writer = open_writer; temp = some ps; files = files; status = running }

-- The loop has ended, and these packets are all in the output path.
abbrev pub Ended : List DumpPacket → Dump → Type 0
Ended ps s = (packets_of s.files ≡ ps) × (s.temp ≡ none) × (s.status ≡ exited)

packets_of-moved :
    (files : List (ℕ × List DumpPacket)) (now : ℕ) (ps : List DumpPacket)
    → packets_of (files ++ (now, ps) ∷ []) ≡ packets_of files ++ ps
unfolding packets_of
packets_of-moved files now ps =
    packets_of-append files ((now, ps) ∷ []) ∙ ap (packets_of files ++◌) (append-nil ps)

receive_all_exited : (rs : List Received) (s : Dump) → s.status ≡ exited → receive_all rs s ≡ s
unfolding receive_all
receive_all_exited [] s e = refl
receive_all_exited (r ∷ rs) s e = rw e refl

receive_all-Ended :
    (last : ℕ) (rs : List Received) (ps : List DumpPacket) (files : List (ℕ × List DumpPacket))
    → Works last rs
    → All (NamedBelow (last + 1)) files
    → Ended ((packets_of files ++ ps) ++ received_of rs) (receive_all rs (writing ps files))
unfolding Works received_of receive_all receive closing write_packet move_pcap create_pcap
receive_all-Ended last [] ps files works below = elim works [ ]
receive_all-Ended last (to_dump p writes ∷ rs) ps files (w, works) below =
    let (e, gone, done) = receive_all-Ended last rs (ps ++ p ∷ []) files works below in
    rw w (
      e
          ∙ ap (◌++ received_of rs) (sym (append_assoc (packets_of files) ps (p ∷ [])))
          ∙ append_assoc (packets_of files ++ ps) (p ∷ []) (received_of rs),
      gone,
      done,
    )
receive_all-Ended last (tick now moves creates ∷ rs) ps files (later, m, c, works) below =
    let older = NamedBelow-later (last + 1) now files (omega arith) below in
    let all = files ++ (now, ps) ∷ [] in
    let (e, gone, done) =
      receive_all-Ended now rs [] all works (NamedBelow-moved now files ps older) in
    rw (m, c, without-new now files older)
      (
        e ∙ ap (◌++ received_of rs) (append-nil (packets_of all) ∙ packets_of-moved files now ps),
        gone,
        done,
      )
receive_all-Ended last (stop_signal now moves ∷ rs) ps files (later, m) below =
    let older = NamedBelow-later (last + 1) now files (omega arith) below in
    rw
      (
        m,
        without-new now files older,
        receive_all_exited rs
            (record {
              writer = closed_writer;
              temp = none;
              files = files ++ (now, ps) ∷ [];
              status = exited;
            })
            refl,
      )
      (packets_of-moved files now ps ∙ sym (append-nil (packets_of files ++ ps)), refl, refl)

unfoldable pub left_over : Option (List DumpPacket) → List DumpPacket
left_over none = []
left_over (some ps) = ps

-- The files in the output path are older than the start. Every write, move and creation succeeds, each
-- tick and the signal that comes are later by a second at least than the one before. Then the loop exits
-- with no temporary file, and the files hold, in order and each packet once, what they held, what the
-- previous run left and what was received up to the signal.
pub dump_pcap-Ended :
    (now : ℕ) (left : Option (List DumpPacket)) (files : List (ℕ × List DumpPacket))
    (rs : List Received)
    → All (NamedBelow now) files
    → Works now rs
    → Ended
        ((packets_of files ++ left_over left) ++ received_of rs)
        (dump_pcap now true true left files rs)
unfolding dump_pcap move_pcap create_pcap left_over
dump_pcap-Ended now none files rs older works =
    receive_all-Ended now rs [] files works
      (NamedBelow-later now (now + 1) files (omega arith) older)
dump_pcap-Ended now (some ps) files rs older works =
    let all = files ++ (now, ps) ∷ [] in
    let (e, gone, done) =
      receive_all-Ended now rs [] all works (NamedBelow-moved now files ps older) in
    rw (without-new now files older) (
      e ∙ ap (◌++ received_of rs) (append-nil (packets_of all) ∙ packets_of-moved files now ps),
      gone,
      done,
    )
