-- ===== src/Ip4defrag/Overlap.antt =====
-- ip4defrag/defrag.go: the checks on a packet, and what overlapping fragments come to.
use heplify.Common.{
  ℕ, ◌+◌, ◌-◌, ◌*◌, ◌%◌, ◌≤◌, ◌<◌, ◌≡◌, ◌↔◌, refl, false, List, [], ◌∷◌, some, none, length, arith,
  All, leb, ==_of_ne, lt→ltb, le→ltb, err,
}
use heplify.Common.Bytes.{Bytes, IsU16}
use heplify.Ip4defrag.{Ip4, hole_found, sub16, security_checks}
use heplify.Ip4defrag.FragmentList.{
  FragmentList, offset, place, placed_in, count_fragment, insert_at, insert, build_payload,
}
use heplify.Ip4defrag.Datagram.{start, stop}

-- A packet passes the checks exactly if it carries 8 bytes or more and its offset is not above
-- 8183: the third check, on the end of the fragment, refuses nothing.
pub security_checks_iff :
    (ip : Ip4)
    → IsU16 ip.length
    → ip.ihl * 4 ≤ ip.length
    → (security_checks ip ≡ none) ↔ ((8 + ip.ihl * 4 ≤ ip.length) × (ip.frag_offset ≤ 8183))
unfolding security_checks
security_checks_iff ip word header = (λ e. ground arith, λ h. ground arith)

place_passes :
    (g : Ip4) (es : List Ip4) → All (λ e. e.frag_offset < g.frag_offset) es → place g es ≡ some es
unfolding place
place_passes g [] all = refl
place_passes g (e ∷ es) (lt, all) = rw (
  ==_of_ne g.frag_offset e.frag_offset (omega arith),
  le→ltb g.frag_offset e.frag_offset (omega arith),
  place_passes g es all,
)

-- A fragment that starts behind every entry, but before the end of the last one, is lost: its
-- bytes are counted, and the list does not hold them.
pub insert-overlap_lost :
    (fl : FragmentList) (g : Ip4) (t : ℕ)
    → All (λ e. e.frag_offset < g.frag_offset) fl.list
    → offset g < fl.highest
    → ((insert fl g t).0.list ≡ fl.list)
      × ((insert fl g t).0.current ≡ (fl.current + sub16 g.length 20) % 65536)
unfolding insert insert_at placed_in count_fragment
insert-overlap_lost fl g t behind inside =
    let found : leb fl.highest (offset g) ≡ false = ground arith in
    rw (found, place_passes g fl.list behind) (refl, refl)

-- After a fragment that overlaps what was built, `build` takes its offset where its end is
-- meant: the fragment that follows it without a gap is taken for one behind a hole.
pub build_payload-overlap_hole :
    (g h : Ip4) (rest : List Ip4) (p : ℕ) (final : Bytes)
    → p < 65536
    → stop g < 65536
    → g.length ≡ 20 + length g.payload
    → start g < p
    → p ≤ stop g
    → p + start g < stop g
    → start h ≡ stop g
    → build_payload (g ∷ h ∷ rest) p final ≡ err hole_found
unfolding build_payload
build_payload-overlap_hole g h rest p final word end len over inside wrong next =
    let at_g : offset g ≡ start g = omega arith in
    let at_h : offset h ≡ stop g = omega arith in
    let gap : sub16 p (start g) ≡ p - start g = omega arith in
    let size : sub16 g.length 20 ≡ length g.payload = omega arith in
    let moved : (p + start g) % 65536 ≡ p + start g = omega arith in
    rw
      (
        at_g,
        at_h,
        gap,
        size,
        moved,
        ==_of_ne (start g) p (omega arith),
        lt→ltb (start g) p over,
        le→ltb (length g.payload) (p - start g) (omega arith),
      )
      (rw (
        ==_of_ne (stop g) (p + start g) (omega arith),
        le→ltb (stop g) (p + start g) (omega arith),
      ))
