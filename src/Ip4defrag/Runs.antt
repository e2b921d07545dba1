-- ===== src/Ip4defrag/Runs.antt =====
-- ip4defrag/defrag.go: concrete runs, and the theorems at concrete inputs.
use heplify.Common.{
  ℕ, ◌+◌, ◌*◌, ◌%◌, ◌≤◌, ◌≡◌, ◌⊎◌, ◌↔◌, refl, Bool, true, false, ◌&&◌, [], ◌∷◌, some, none, length,
  arith, ok, err,
}
use heplify.Common.Bytes.{Bytes, bytes_eq, bytes_eq_iff}
use heplify.Ip4defrag.{Ip4, hole_found, sub16, dont_defrag, security_checks}
use heplify.Ip4defrag.FragmentList.{
  FragmentList, new_fragment_list, placed_in, count_fragment, build_payload, try_build, insert_at,
  insert,
}
use heplify.Ip4defrag.Datagram.{IsFragment, IsPartial}
use heplify.Ip4defrag.Insert.{insert_sound, new_fragment_list-IsPartial}
use heplify.Ip4defrag.Deliver.{deliver, deliver-IsCut}
use heplify.Ip4defrag.Overlap.{security_checks_iff, insert-overlap_lost, build_payload-overlap_hole}
use heplify.Ip4defrag.Defragmenter.{
  Network, FlowKey, new_ipv4, Flows, find_flow, put_flow, settle, defrag_fragment, defrag_checked,
  defrag_ipv4_with_timestamp, discard_older_than,
}
use heplify.Ip4defrag.Flows.{defrag_ipv4_with_timestamp_same}
use heplify.Ip4defrag.Bounds.{
  AllBounded, kept_since, defrag_ipv4_with_timestamp-AllBounded, discard_older_than_lem,
}

-- Flows as pairs of addresses.
same_flow : Bytes × Bytes → Bytes × Bytes → Bool
same_flow a b = bytes_eq a.0 b.0 && bytes_eq a.1 b.1

same_flow_iff : (a b : Bytes × Bytes) → (same_flow a b ≡ true) ↔ (a ≡ b)
unfolding same_flow
same_flow_iff (a, p) (b, q) =
    let first = bytes_eq_iff a b in
    let second = bytes_eq_iff p q in
    ((λ e. ground (arith, first, second)), (λ e. ground (arith, first, second)))

abbrev addresses : Network
addresses = record {
  Flow = Bytes × Bytes;
  network_flow = λ ip. (ip.src_ip, ip.dst_ip);
  same = same_flow;
  same_iff = same_flow_iff;
}

abbrev fragment : ℕ → Bool → Bytes → Ip4
fragment at more payload = record {
  version = 4;
  ihl = 5;
  tos = 0;
  length = 20 + length payload;
  id = 7;
  flags = record { dont_fragment = false; more_fragments = more };
  frag_offset = at;
  ttl = 64;
  protocol = 17;
  checksum = 0;
  src_ip = 10 ∷ 0 ∷ 0 ∷ 1 ∷ [];
  dst_ip = 10 ∷ 0 ∷ 0 ∷ 2 ∷ [];
  options = [];
  padding = [];
  payload = payload;
}

abbrev whole : Bytes
whole = 1 ∷ 2 ∷ 3 ∷ 4 ∷ 5 ∷ 6 ∷ 7 ∷ 8 ∷ 11 ∷ 12 ∷ 13 ∷ 14 ∷ 15 ∷ 16 ∷ 17 ∷ 18 ∷ 21 ∷ 22 ∷ []

abbrev first : Ip4
first = fragment 0 true (1 ∷ 2 ∷ 3 ∷ 4 ∷ 5 ∷ 6 ∷ 7 ∷ 8 ∷ [])

abbrev middle : Ip4
middle = fragment 1 true (11 ∷ 12 ∷ 13 ∷ 14 ∷ 15 ∷ 16 ∷ 17 ∷ 18 ∷ [])

abbrev last : Ip4
last = fragment 2 false (21 ∷ 22 ∷ [])

abbrev at_zero : Ip4 → ℕ
at_zero _ = 0

first-IsFragment : IsFragment whole first
first-IsFragment = record {
  length_is = refl;
  nonempty = omega arith;
  within = omega arith;
  cut = refl;
  last_stops = λ e. cc;
  stops_last = λ e. absurd (omega (arith, e));
}

middle-IsFragment : IsFragment whole middle
middle-IsFragment = record {
  length_is = refl;
  nonempty = omega arith;
  within = omega arith;
  cut = refl;
  last_stops = λ e. cc;
  stops_last = λ e. absurd (omega (arith, e));
}

last-IsFragment : IsFragment whole last
last-IsFragment = record {
  length_is = refl;
  nonempty = omega arith;
  within = omega arith;
  cut = refl;
  last_stops = λ e. refl;
  stops_last = λ e. refl;
}

deliver-IsCut_example :
    (out : Ip4) × (deliver at_zero new_fragment_list (last ∷ first ∷ middle ∷ []) ≡ some (out, []))
    × (out.payload ≡ whole)
    × (out.length ≡ 18)
deliver-IsCut_example =
    deliver-IsCut whole at_zero (last ∷ first ∷ middle ∷ []) (omega arith) (record {
      fragments = (last-IsFragment, (first-IsFragment, (middle-IsFragment, tt)));
      apart = omega arith;
      covers = refl;
    })

abbrev empty_list : FragmentList
empty_list = new_fragment_list

insert_sound_example :
    IsPartial whole (insert empty_list last 5).0
    × (((insert empty_list last 5).1 ≡ ok none)
        ⊎ ((out : Ip4) × ((insert empty_list last 5).1 ≡ ok (some out))
            × (out.payload ≡ whole)
            × (out.length ≡ 18)))
insert_sound_example =
    insert_sound whole (omega arith) empty_list last 5
      (new_fragment_list-IsPartial whole (omega arith)) last-IsFragment tt

-- The last fragment of this datagram carries two bytes, and the checks refuse it.
security_checks_iff_example : (security_checks last ≡ none) ↔ ((8 + 5 * 4 ≤ 22) × (2 ≤ 8183))
security_checks_iff_example = security_checks_iff last (omega arith) (omega arith)

abbrev holding_first : FragmentList
holding_first = record {
  list = first ∷ [];
  highest = 16;
  current = 16;
  final_received = false;
  last_seen = 3;
}

insert-overlap_lost_example :
    ((insert holding_first middle 4).0.list ≡ first ∷ [])
    × ((insert holding_first middle 4).0.current ≡ (16 + sub16 28 20) % 65536)
insert-overlap_lost_example = insert-overlap_lost holding_first middle 4 (omega arith) (omega arith)

build_payload-overlap_hole_example :
    build_payload
      (fragment 1 true (
          1 ∷ 2 ∷ 3 ∷ 4 ∷ 5 ∷ 6 ∷ 7 ∷ 8 ∷ 9 ∷ 10 ∷ 11 ∷ 12 ∷ 13 ∷ 14 ∷ 15 ∷ 16 ∷ 17 ∷ 18 ∷ 19 ∷ 20
          ∷ 21 ∷ 22 ∷ 23 ∷ 24 ∷ [])
        ∷ fragment 4 false (9 ∷ [])
        ∷ [])
      10
      []
    ≡ err hole_found
build_payload-overlap_hole_example =
    build_payload-overlap_hole
      (fragment 1 true (
        1 ∷ 2 ∷ 3 ∷ 4 ∷ 5 ∷ 6 ∷ 7 ∷ 8 ∷ 9 ∷ 10 ∷ 11 ∷ 12 ∷ 13 ∷ 14 ∷ 15 ∷ 16 ∷ 17 ∷ 18 ∷ 19 ∷ 20
        ∷ 21 ∷ 22 ∷ 23 ∷ 24 ∷ []))
      (fragment 4 false (9 ∷ [])) [] 10 [] (omega arith) (omega arith) refl (omega arith)
      (omega arith) (omega arith) refl

abbrev other_flow : FlowKey addresses
other_flow = record { ip4 = (9 ∷ [], 8 ∷ []); id = 7 }

abbrev flows : Flows addresses
flows = (other_flow, holding_first) ∷ []

defrag_ipv4_with_timestamp_same_example :
    ((defrag_ipv4_with_timestamp addresses flows first 9).1
      ≡ (defrag_ipv4_with_timestamp addresses [] first 9).1)
    × (find_flow addresses
          (new_ipv4 addresses first)
          (defrag_ipv4_with_timestamp addresses flows first 9).0
        ≡ find_flow addresses
            (new_ipv4 addresses first)
            (defrag_ipv4_with_timestamp addresses [] first 9).0)
defrag_ipv4_with_timestamp_same_example =
    defrag_ipv4_with_timestamp_same addresses flows [] first 9 absent
  where
    absent :
        find_flow addresses (new_ipv4 addresses first) flows
        ≡ find_flow addresses (new_ipv4 addresses first) []
    absent = unfold find_flow same_flow bytes_eq in refl

defrag_ipv4_with_timestamp-AllBounded_example :
    AllBounded addresses (defrag_ipv4_with_timestamp addresses flows first 9).0
defrag_ipv4_with_timestamp-AllBounded_example =
    defrag_ipv4_with_timestamp-AllBounded addresses flows first 9 (omega arith)
      (λ e.
        unfold defrag_ipv4_with_timestamp defrag_checked defrag_fragment dont_defrag security_checks
          insert insert_at placed_in count_fragment try_build settle find_flow put_flow same_flow
          bytes_eq in
        cc e)
      (λ e.
        unfold defrag_ipv4_with_timestamp defrag_checked defrag_fragment dont_defrag security_checks
          insert insert_at placed_in count_fragment try_build settle find_flow put_flow same_flow
          bytes_eq in
        cc e)

discard_older_than_lem_example :
    ((j : FlowKey addresses)
      → find_flow addresses j (discard_older_than addresses 4 flows).0
        ≡ kept_since addresses 4 (find_flow addresses j flows))
    × (length (discard_older_than addresses 4 flows).0 + (discard_older_than addresses 4 flows).1
        ≡ 1)
discard_older_than_lem_example =
    discard_older_than_lem addresses 4 flows (unfold find_flow in refl, tt)
