-- ===== src/Ip4defrag/Insert.antt =====
-- ip4defrag/defrag.go: `insert` keeps a list of fragments of one datagram in shape, and gives the
-- datagram as soon as its bytes are all there.
use heplify.Common.{
  ℕ, ◌+◌, ◌%◌, ◌≤◌, ◌≡◌, ◌≢◌, ◌⊎◌, inl, inr, refl, sym, List, some, none, length, arith, All, ◌==◌,
  Bool-cases, ==_of_eq, ==→eq, ok,
}
use heplify.Common.Bytes.{Bytes}
use heplify.Ip4defrag.{Ip4, sub16}
use heplify.Ip4defrag.FragmentList.{
  FragmentList, new_fragment_list, offset, count_fragment, try_build, insert_at, insert, rebuilt,
}
use heplify.Ip4defrag.Datagram.{
  IsFragment, IsDatagram, IsPartial, stop, total-le-last_stop, last_stop_within,
}
use heplify.Ip4defrag.Build.{offset-start, build_complete}
use heplify.Ip4defrag.Place.{Agrees, IsPlaced, placed_in_cases}

pub count_fragment-list :
    (fl : FragmentList) (g : Ip4) (new : List Ip4) (t : ℕ) → (count_fragment fl g new t).list ≡ new
unfolding count_fragment
count_fragment-list fl g new t = refl

module _ (d : Bytes) (size : IsDatagram d) where
  pub highest_within : (fl : FragmentList) → IsPartial d fl → fl.highest ≤ length d
  highest_within fl s = omega (arith, s.highest, last_stop_within d 0 fl.list s.chain (omega arith))

  pub current-le-highest : (fl : FragmentList) → IsPartial d fl → fl.current ≤ fl.highest
  current-le-highest fl s =
      omega (arith, s.highest, s.current, total-le-last_stop d 0 fl.list s.chain)

  -- The counters stay those of the list.
  pub count_fragment-IsPartial :
      (fl : FragmentList) (g : Ip4) (new : List Ip4) (t : ℕ)
      → IsPartial d fl
      → IsFragment d g
      → IsPlaced d 0 fl.list g new
      → IsPartial d (count_fragment fl g new t)
  unfolding count_fragment
  count_fragment-IsPartial fl g new t s i r =
      let first = offset-start d g size i in
      let last : (offset g + sub16 g.length 20) % 65536 ≡ stop g =
        omega (arith, first, i.length_is, i.within) in
      let high = highest_within fl s in
      let bound = last_stop_within d 0 new r.chain (omega arith) in
      let sum = total-le-last_stop d 0 new r.chain in
      record {
        chain = r.chain;
        highest = rw (last, s.highest) (sym r.last_is);
        current = omega (arith, i.length_is, s.current, r.total_is);
        final_stops = λ e. ground (arith, last, i.last_stops, i.within, s.final_stops);
        stops_final = λ e. ground (arith, last, i.stops_last, i.within, s.stops_final);
      }

  -- With all bytes there the datagram is built, and otherwise nothing is.
  pub try_build_complete :
      (fl : FragmentList) (g : Ip4)
      → IsPartial d fl
      → fl.current ≡ length d
      → try_build fl g ≡ ok (some (rebuilt fl g d))
  unfolding try_build
  try_build_complete fl g s sum =
      let top : fl.highest ≡ length d =
        omega (arith, highest_within fl s, current-le-highest fl s) in
      rw (
        build_complete d fl g size s top sum,
        s.stops_final top,
        ==_of_eq fl.highest fl.current (omega arith),
      )

  pub try_build_incomplete :
      (fl : FragmentList) (g : Ip4)
      → IsPartial d fl
      → fl.current ≢ length d
      → try_build fl g ≡ ok none
  unfolding try_build
  try_build_incomplete fl g s short = ground (arith, s.final_stops)

  -- What `insert` does with a fragment that agrees with those in the list.
  pub insert_cases :
      (fl : FragmentList) (g : Ip4) (t : ℕ)
      → IsPartial d fl
      → IsFragment d g
      → All (Agrees g) fl.list
      → (insert fl g t ≡ (fl, ok none))
        ⊎ ((new : List Ip4) × (insert fl g t
              ≡ (count_fragment fl g new t, try_build (count_fragment fl g new t) g))
            × IsPlaced d 0 fl.list g new)
  unfolding insert insert_at
  insert_cases fl g t s i agree = elim (placed_in_cases d g i fl size s agree) [
    | inl dup ↦ inl (rw dup)
    | inr (new, at, r) ↦ inr (new, rw at, r)
  ]

  -- A list of fragments of one datagram stays one, and what `insert` answers is nothing yet, or a
  -- packet with the whole datagram in it, whose length field counts the datagram's bytes.
  pub insert_sound :
      (fl : FragmentList) (g : Ip4) (t : ℕ)
      → IsPartial d fl
      → IsFragment d g
      → All (Agrees g) fl.list
      → IsPartial d (insert fl g t).0
        × (((insert fl g t).1 ≡ ok none)
            ⊎ ((out : Ip4) × ((insert fl g t).1 ≡ ok (some out))
                × (out.payload ≡ d)
                × (out.length ≡ length d)))
  insert_sound fl g t s i agree = elim (insert_cases fl g t s i agree) [
    | inl dup ↦ rw dup (s, inl refl)
    | inr (new, e, r) ↦
        let fl' = count_fragment fl g new t in
        let s' : IsPartial d fl' = count_fragment-IsPartial fl g new t s i r in
        elim (Bool-cases (fl'.current == length d)) [
          | inl full ↦
              let sum : fl'.current ≡ length d = ==→eq fl'.current (length d) full in
              rw (e, try_build_complete fl' g s' sum)
                (
                  s',
                  inr (
                    rebuilt fl' g d,
                    refl,
                    refl,
                    omega (arith, highest_within fl' s', current-le-highest fl' s'),
                  ),
                )
          | inr short ↦
              rw
                (
                  e,
                  try_build_incomplete fl' g s'
                      (λ q. cc (short, ==_of_eq fl'.current (length d) q)),
                )
                (s', inl refl)
        ]
  ]

pub new_fragment_list-IsPartial : (d : Bytes) → IsDatagram d → IsPartial d new_fragment_list
new_fragment_list-IsPartial d size = record {
  chain = tt;
  highest = refl;
  current = refl;
  final_stops = λ e. cc;
  stops_final = λ e. absurd (omega arith);
}
