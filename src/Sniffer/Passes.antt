-- ===== src/Sniffer/Passes.antt =====
-- sniffer/sniffer.go: a file is read once, by a handle that gives its packets and then the end.
use heplify.Common.{
  ℕ, zero, suc, ◌+◌, ◌<◌, ◌≡◌, refl, sym, ap, ◌∙◌, Bool, true, false, not, ◌&&◌, List, [], ◌∷◌,
  ◌++◌, append_assoc, append-nil, Option, none, some, length, ltb, ==_of_ne, Bool-cases, inl, inr,
  if◌then◌else◌, All, arith,
}
use heplify.Common.Bytes.{Bytes}
use heplify.Sniffer.Run.{
  Event, packet, end_of_file, pcap, Config, State, at_end, wait, on_packet, round, Recorded,
  Offline, opened_again, run_file,
}

-- What the worker gets of a file: the time of the packet, or that of the clock.
unfoldable pub stamped : Bool → List Recorded → List (Bytes × ℕ)
stamped speed [] = []
stamped speed ((bytes, (time, now)) ∷ ps) = (bytes, if speed then time else now) ∷ stamped speed ps

abbrev pub from_file : Bool → ℕ → Config
from_file speed loop = record {
  sniffer_type = pcap;
  read_file = true;
  write_file = false;
  read_speed = speed;
  loop = loop;
}

abbrev pub HasBytes : Recorded → Type 0
HasBytes (bytes, _) = 0 < length bytes

-- A state after packets were given to the worker, but for what was waited and the last packet's time.
abbrev pub Delivered : List (Bytes × ℕ) → State → State → Type 0
Delivered xs s t =
    (t.delivered ≡ s.delivered ++ xs)
    × (t.is_alive ≡ s.is_alive)
    × (t.ret_error ≡ s.ret_error)
    × (t.loop_count ≡ s.loop_count)
    × (t.reopened ≡ s.reopened)

module _ (r : Offline) where
  open r use {World, read_packet_data, open_offline}

  -- The handle gives these packets and then the end of the file, which leaves it in the last world.
  unfoldable pub Reads : World → List Recorded → World → Type 0
  Reads w [] end = read_packet_data w ≡ (end_of_file true, end)
  Reads w ((bytes, (time, now)) ∷ ps) end =
      (next : World) × (read_packet_data w ≡ (packet bytes time now, next)) × Reads next ps end

module _ (r : Offline) (speed : Bool) (n : ℕ) where
  open r use {World, read_packet_data, open_offline}

  abbrev pub cfg : Config
  cfg = from_file speed n

  abbrev pub go : ℕ → World → State → State
  go rounds w s = run_file r cfg rounds w s

  pub go_dead : (rounds : ℕ) (w : World) (s : State) → s.is_alive ≡ false → go rounds w s ≡ s
  unfolding run_file
  go_dead zero w s dead = refl
  go_dead (suc rounds) w s dead = rw dead refl

  -- A round that reads an event.
  go_alive :
      (rounds : ℕ) (w : World) (s : State)
      → s.is_alive ≡ true
      → go (suc rounds) w s
        ≡ go rounds (opened_again r (read_packet_data w)) (round cfg (read_packet_data w).0 s)
  unfolding run_file
  go_alive rounds w s alive = rw alive refl

  go-event :
      (rounds : ℕ) (w : World) (s : State) (x : Event × World)
      → s.is_alive ≡ true
      → read_packet_data w ≡ x
      → go (suc rounds) w s ≡ go rounds (opened_again r x) (round cfg x.0 s)
  go-event rounds w s x alive e =
      go_alive rounds w s alive ∙ (ap (λ x. go rounds (opened_again r x) (round cfg x.0 s)) e)

  go-end :
      (rounds : ℕ) (w end : World) (s : State)
      → s.is_alive ≡ true
      → read_packet_data w ≡ (end_of_file true, end)
      → go (suc rounds) w s ≡ go rounds (open_offline end) (at_end cfg true s)
  unfolding round
  go-end rounds w end s alive e = go-event rounds w s (end_of_file true, end) alive e

  wait-Delivered : (last : Option ℕ) (time : ℕ) (s : State) → Delivered [] s (wait cfg last time s)
  unfolding wait
  wait-Delivered none time s = (sym (append-nil s.delivered), refl, refl, refl, refl)
  wait-Delivered (some last) time s = elim (Bool-cases (not speed && ltb last time)) [
    | inl e ↦ rw e (sym (append-nil s.delivered), refl, refl, refl, refl)
    | inr e ↦ rw e (sym (append-nil s.delivered), refl, refl, refl, refl)
  ]

  round-packet-Delivered :
      (bytes : Bytes) (time now : ℕ) (s : State)
      → 0 < length bytes
      → Delivered
          ((bytes, if speed then time else now) ∷ [])
          s
          (round cfg (packet bytes time now) s)
  unfolding round on_packet
  round-packet-Delivered bytes time now s some_bytes =
      let (d, a, e, l, r) = wait-Delivered s.last_pkt_time time s in
      rw (==_of_ne (length bytes) 0 (omega arith)) (
        ap (◌++ (bytes, if speed then time else now) ∷ []) (d ∙ append-nil s.delivered),
        a,
        e,
        l,
        r,
      )

  Delivered-trans :
      (xs ys : List (Bytes × ℕ)) (s t u : State)
      → Delivered xs s t
      → Delivered ys t u
      → Delivered (xs ++ ys) s u
  Delivered-trans xs ys s t u (d, a, e, l, r) (d', a', e', l', r') =
      (d' ∙ ap (◌++ ys) d ∙ append_assoc s.delivered xs ys, a' ∙ a, e' ∙ e, l' ∙ l, r' ∙ r)

  -- The rounds up to the end of the file, and its opening again.
  pub record Pass (rounds : ℕ) (w : World) (ps : List Recorded) (end : World) (s : State)
      : Type 0 where
    pub after : State
    pub others : ℕ
    pub given : Delivered (stamped speed ps) s after
    pub goes : go rounds w s ≡ go others (open_offline end) (at_end cfg true after)
    pub spent : rounds ≡ others + length ps + 1

  pub pass :
      (rounds : ℕ) (w : World) (ps : List Recorded) (end : World) (s : State)
      → Reads r w ps end
      → All HasBytes ps
      → s.is_alive ≡ true
      → length ps < rounds
      → Pass rounds w ps end s
  unfolding Reads stamped
  pass zero w ps end s reads has alive enough = absurd (omega arith)
  pass (suc rounds) w [] end s reads has alive enough = record {
    after = s;
    others = rounds;
    given = (sym (append-nil s.delivered), refl, refl, refl, refl);
    goes = go-end rounds w end s alive reads;
    spent = omega arith;
  }
  pass (suc rounds) w ((bytes, (time, now)) ∷ ps) end s (next, e, reads) (some_bytes, has) alive
        enough =
      let first = packet bytes time now in
      let one : List (Bytes × ℕ) = (bytes, if speed then time else now) ∷ [] in
      let after = round cfg first s in
      let got = round-packet-Delivered bytes time now s some_bytes in
      let p = pass rounds next ps end after reads has (got.1 ∙ alive) (omega arith) in
      record {
        after = p.after;
        others = p.others;
        given = Delivered-trans one (stamped speed ps) s after p.after got p.given;
        goes = go-event rounds w s (first, next) alive e ∙ p.goes;
        spent = omega (arith, p.spent);
      }
