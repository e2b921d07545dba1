-- ===== src/Sniffer/Files.antt =====
-- sniffer/sniffer.go: what `Run` gives to its worker of a file that is opened again.
use heplify.Common.{
  ℕ, zero, suc, ◌+◌, ◌≤◌, ◌<◌, ◌≡◌, refl, sym, ap, ◌∙◌, Bool, true, false, List, [], ◌∷◌, ◌++◌,
  append_assoc, append-nil, none, length, lt→ltb, le→ltb, if◌then◌else◌, All, arith,
}
use heplify.Common.Bytes.{Bytes}
use heplify.Sniffer.Run.{State, started, reopen, at_end, Recorded, Offline, run_file}
use heplify.Sniffer.Passes.{stamped, from_file, HasBytes, Reads, cfg, go, go_dead, pass}

-- The packets of all readings, as the worker gets them.
unfoldable pub all_stamped : Bool → List (List Recorded) → List (Bytes × ℕ)
all_stamped speed [] = []
all_stamped speed (ps ∷ pss) = stamped speed ps ++ all_stamped speed pss

-- A round for each packet, and one for the end of each reading.
unfoldable pub rounds_of : List (List Recorded) → ℕ
rounds_of [] = 0
rounds_of (ps ∷ pss) = length ps + 1 + rounds_of pss

abbrev pub recorded_bytes : List Recorded → List Bytes
recorded_bytes [] = []
recorded_bytes ((bytes, at) ∷ ps) = bytes ∷ recorded_bytes ps

abbrev pub given_bytes : List (Bytes × ℕ) → List Bytes
given_bytes [] = []
given_bytes ((bytes, at) ∷ ps) = bytes ∷ given_bytes ps

-- The packets of a file that a filter accepts.
unfoldable pub accepted : (Bytes → Bool) → List Bytes → List Bytes
accepted accepts [] = []
accepted accepts (p ∷ ps) = let more = accepted accepts ps in if accepts p then p ∷ more else more

unfoldable pub repeated {ℓ} : {A : Type ℓ} → ℕ → List A → List A
repeated zero xs = []
repeated (suc n) xs = xs ++ repeated n xs

given_bytes-append :
    (xs ys : List (Bytes × ℕ)) → given_bytes (xs ++ ys) ≡ given_bytes xs ++ given_bytes ys
given_bytes-append [] ys = refl
given_bytes-append ((bytes, at) ∷ xs) ys = ap (bytes ∷◌) (given_bytes-append xs ys)

given_bytes-stamped :
    (speed : Bool) (ps : List Recorded) → given_bytes (stamped speed ps) ≡ recorded_bytes ps
unfolding stamped
given_bytes-stamped speed [] = refl
given_bytes-stamped speed ((bytes, (time, now)) ∷ ps) = ap (bytes ∷◌) (given_bytes-stamped speed ps)

given_bytes-repeated :
    (speed : Bool) (file : List Bytes) (pss : List (List Recorded))
    → All (λ ps. recorded_bytes ps ≡ file) pss
    → given_bytes (all_stamped speed pss) ≡ repeated (length pss) file
unfolding all_stamped repeated
given_bytes-repeated speed file [] same = refl
given_bytes-repeated speed file (ps ∷ pss) (e, same) =
    given_bytes-append (stamped speed ps) (all_stamped speed pss)
    ∙ ap (◌++ given_bytes (all_stamped speed pss)) (given_bytes-stamped speed ps ∙ e)
    ∙ ap (file ++◌) (given_bytes-repeated speed file pss same)

module _ (r : Offline) where
  open r use {World, open_offline}

  -- What libpcap gives, reading by reading.
  unfoldable pub Serves : World → List (List Recorded) → Type 0
  Serves w [] = Unit
  Serves w (ps ∷ pss) = (end : World) × Reads r w ps end × Serves (open_offline end) pss

module _ (r : Offline) (speed : Bool) (n : ℕ) where
  open r use {World, open_offline}

  at_end_last :
      (s : State)
      → 0 < s.loop_count
      → s.loop_count ≡ n
      → at_end (cfg r speed n) true s ≡ record s { loop_count = s.loop_count + 1; is_alive = false }
  unfolding at_end
  at_end_last s counted full =
      rw (lt→ltb 0 n (omega arith), lt→ltb n (s.loop_count + 1) (omega arith)) refl

  at_end_again :
      (s : State)
      → s.loop_count < n
      → at_end (cfg r speed n) true s ≡ record s {
        loop_count = s.loop_count + 1;
        last_pkt_time = none;
        reopened = s.reopened + 1;
      }
  unfolding at_end reopen
  at_end_again s left =
      rw (lt→ltb 0 n (omega arith), le→ltb n (s.loop_count + 1) (omega arith)) refl

  -- What is left when the file has been read for the last time.
  abbrev Ended : List (Bytes × ℕ) → ℕ → State → State → Type 0
  Ended xs again s t =
      (t.delivered ≡ s.delivered ++ xs)
      × (t.is_alive ≡ false)
      × (t.ret_error ≡ none)
      × (t.reopened ≡ s.reopened + again)

  passes :
      (ps : List Recorded) (pss : List (List Recorded)) (rounds : ℕ) (w : World) (s : State)
      → Serves r w (ps ∷ pss)
      → All (All HasBytes) (ps ∷ pss)
      → s.is_alive ≡ true
      → s.ret_error ≡ none
      → 0 < s.loop_count
      → s.loop_count + length pss ≡ n
      → rounds_of (ps ∷ pss) ≤ rounds
      → Ended (all_stamped speed (ps ∷ pss)) (length pss) s (go r speed n rounds w s)
  unfolding Serves all_stamped rounds_of
  passes ps [] rounds w s (end, reads, serves) (has, _) alive clear counted left enough =
      let p = pass r speed n rounds w ps end s reads has alive (omega arith) in
      let (d, a, e, l, again) = p.given in
      let t = p.after in
      let ended = record t { loop_count = t.loop_count + 1; is_alive = false } in
      rw
        (
          p.goes,
          at_end_last t (omega arith) (omega arith),
          go_dead r speed n p.others (open_offline end) ended refl,
        )
        (
          d ∙ ap (s.delivered ++◌) (sym (append-nil (stamped speed ps))),
          refl,
          e ∙ clear,
          omega arith,
        )
  passes ps (qs ∷ pss) rounds w s (end, reads, serves) (has, more) alive clear counted left enough =
      let p = pass r speed n rounds w ps end s reads has alive (omega arith) in
      let (d, a, e, l, again) = p.given in
      let t = p.after in
      let next = record t {
        loop_count = t.loop_count + 1;
        last_pkt_time = none;
        reopened = t.reopened + 1;
      } in
      let rest = all_stamped speed (qs ∷ pss) in
      let (d', a', e', again') =
        passes qs pss p.others (open_offline end) next serves more (a ∙ alive) (e ∙ clear)
          (omega arith) (omega arith) (omega (arith, p.spent)) in
      rw (p.goes, at_end_again t (omega arith))
        (
          d' ∙ ap (◌++ rest) d ∙ append_assoc s.delivered (stamped speed ps) rest,
          a',
          e',
          omega arith,
        )

-- A sniffer that has read a file and then opened and read it again, as often as there are other readings.
abbrev pub Finished :
    (Bytes → Bool) → Bool → List Bytes → List Recorded → List (List Recorded) → State → Type 0
Finished accepts speed file first others s =
    (s.delivered ≡ all_stamped speed (first ∷ others))
    × (given_bytes s.delivered ≡ accepted accepts file ++ repeated (length others) file)
    × (s.is_alive ≡ false)
    × (s.ret_error ≡ none)
    × (s.reopened ≡ length others)

-- A file of packets with bytes, which opens again each time, and `loop` at the number of its readings. The
-- first handle has the BPF filter and gives the packets that it accepts; the others, to which `Reopen` sets no
-- filter, give all. Then the worker gets the accepted packets once and all packets of the file in each further
-- reading, in their order, with the file's times if ReadSpeed is set and the clock's if not; and the loop ends
-- without an error, within a round for each packet that is read and each end.
pub run_file-repeated :
    (r : Offline) (accepts : Bytes → Bool) (speed : Bool) (file : List Bytes)
    (first : List Recorded) (others : List (List Recorded)) (w : r.World) (rounds : ℕ)
    → Serves r w (first ∷ others)
    → All (All HasBytes) (first ∷ others)
    → recorded_bytes first ≡ accepted accepts file
    → All (λ ps. recorded_bytes ps ≡ file) others
    → rounds_of (first ∷ others) ≤ rounds
    → Finished accepts speed file first others
        (run_file r (from_file speed (length others + 1)) rounds w started)
run_file-repeated r accepts speed file first others w rounds serves has filtered whole enough =
    let (d, a, e, again) =
      passes r speed (length others + 1) first others rounds w started serves has refl refl
        (omega arith) (omega arith) enough in
    let bytes : given_bytes (all_stamped speed (first ∷ others))
        ≡ accepted accepts file ++ repeated (length others) file =
      unfold all_stamped in
      (given_bytes-append (stamped speed first) (all_stamped speed others)
        ∙ ap (◌++ given_bytes (all_stamped speed others))
            (given_bytes-stamped speed first ∙ filtered)
        ∙ ap (accepted accepts file ++◌) (given_bytes-repeated speed file others whole)) in
    (d, ap given_bytes d ∙ bytes, a, e, omega arith)
