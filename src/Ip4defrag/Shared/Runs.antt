-- ===== src/Ip4defrag/Shared/Runs.antt =====
-- ip4defrag/defrag.go: calls on shared lists at concrete inputs.
use heplify.Common.{◌≡◌, refl, true, false, [], ◌∷◌, none, ok, arith}
use heplify.Common.Bytes.{Bytes, bytes_eq, bytes_eq_iff}
use heplify.Ip4defrag.{Ip4}
use heplify.Ip4defrag.FragmentList.{
  FragmentList, new_fragment_list, placed_in, count_fragment, try_build, insert_at, insert,
}
use heplify.Ip4defrag.Defragmenter.{Network, defrag_fragment, discard_older_than}
use heplify.Ip4defrag.Shared.{Shared, find_ptr, defrag_shared, defrag_interrupted}
use heplify.Ip4defrag.Shared.View.{flows, IsFrom}
use heplify.Ip4defrag.Shared.Refines.{Refined, defrag_shared-Refined}
use heplify.Ip4defrag.Shared.Race.{defrag_interrupted-lost}

abbrev by_source : Network
by_source = record {
  Flow = Bytes;
  network_flow = λ ip. ip.src_ip;
  same = bytes_eq;
  same_iff = bytes_eq_iff;
}

-- The first eight bytes of a datagram.
abbrev first : Ip4
first = record {
  version = 4;
  ihl = 5;
  tos = 0;
  length = 28;
  id = 7;
  flags = record { dont_fragment = false; more_fragments = true };
  frag_offset = 0;
  ttl = 64;
  protocol = 17;
  checksum = 0;
  src_ip = 10 ∷ 1 ∷ [];
  dst_ip = 10 ∷ 2 ∷ [];
  options = [];
  padding = [];
  payload = 1 ∷ 2 ∷ 3 ∷ 4 ∷ 5 ∷ 6 ∷ 7 ∷ 8 ∷ [];
}

-- A defragmenter that knows no flow.
abbrev empty : Shared by_source
empty = record { store = λ p. new_fragment_list; fresh = 0; table = [] }

defrag_shared-Refined_example :
    Refined by_source
      (defrag_shared by_source empty first 60)
      (defrag_fragment by_source (flows by_source empty) first 60)
unfolding IsFrom
defrag_shared-Refined_example = defrag_shared-Refined by_source empty first 60 tt

abbrev one_fragment : FragmentList
one_fragment = record {
  list = first ∷ [];
  highest = 8;
  current = 8;
  final_received = false;
  last_seen = 60;
}

defrag_interrupted-lost_example :
    (flows by_source (defrag_interrupted by_source 10 empty first 60).0
      ≡ (discard_older_than by_source 10 (flows by_source empty)).0)
    × ((defrag_interrupted by_source 10 empty first 60).1 ≡ ok none)
unfolding IsFrom find_ptr insert insert_at placed_in count_fragment try_build
defrag_interrupted-lost_example =
    defrag_interrupted-lost by_source empty first 60 10 one_fragment tt refl (omega arith) refl
      (omega arith)
