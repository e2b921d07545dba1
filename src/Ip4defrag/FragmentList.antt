-- ===== src/Ip4defrag/FragmentList.antt =====
-- ip4defrag/defrag.go: `fragmentList` with `insert` and `build`. All counters are uint16.
use mathlib.Core.Option
use heplify.Common.{
  ℕ, ◌+◌, ◌*◌, ◌%◌, Bool, true, false, not, ◌&&◌, List, [], ◌∷◌, ◌++◌, Option, none, some, length,
  drop, ltb, leb, ◌==◌, if◌then◌else◌, Outcome, ok, err, panic, ◌>>=◌,
}
use heplify.Common.Bytes.{Bytes}
use heplify.Ip4defrag.{Flags, Ip4, DefragError, invalid_fragment, hole_found, sub16}

pub record FragmentList : Type 0 where
  pub list : List Ip4
  pub highest : ℕ
  pub current : ℕ
  pub final_received : Bool
  pub last_seen : ℕ

-- `new(fragmentList)`
abbrev pub new_fragment_list : FragmentList
new_fragment_list = record {
  list = [];
  highest = 0;
  current = 0;
  final_received = false;
  last_seen = 0;
}

-- `FragOffset * 8`
abbrev pub offset : Ip4 → ℕ
offset f = f.frag_offset * 8 % 65536

-- The loop over the list: `none` is the return on a duplicate. A fragment that belongs behind
-- every entry is not inserted.
unfoldable pub place : Ip4 → List Ip4 → Option (List Ip4)
place f [] = some []
place f (e ∷ es) =
    if f.frag_offset == e.frag_offset
    then none
    else if ltb f.frag_offset e.frag_offset
    then some (f ∷ e ∷ es)
    else Option.map (λ r. e ∷ r) (place f es)

-- `frag.Payload[startAt:]`
abbrev slice_from : ℕ → Bytes → Outcome DefragError Bytes
slice_from n b = if ltb (length b) n then panic else ok (drop n b)

-- The loop of `build`: the payload so far, and `currentOffset`.
unfoldable pub build_payload : List Ip4 → ℕ → Bytes → Outcome DefragError Bytes
build_payload [] current final = ok final
build_payload (f ∷ fs) current final =
    let appended =
      build_payload fs (sub16 ((current + f.length) % 65536) 20) (final ++ f.payload) in
    let start = sub16 current (offset f) in
    let overlapped =
      if ltb (sub16 f.length 20) start
      then err invalid_fragment
      else (slice_from start f.payload >>= λ b.
          build_payload fs ((current + offset f) % 65536) (final ++ b)) in
    if offset f == current
    then appended
    else if ltb (offset f) current
    then overlapped
    else err hole_found

abbrev pub no_flags : Flags
no_flags = record { dont_fragment = false; more_fragments = false }

-- The header of the rebuilt packet, from the fragment that completed it.
abbrev pub rebuilt : FragmentList → Ip4 → Bytes → Ip4
rebuilt fl f final = record f {
  length = fl.highest;
  id = 0;
  flags = no_flags;
  frag_offset = 0;
  checksum = 0;
  payload = final;
}

unfoldable pub build : FragmentList → Ip4 → Outcome DefragError Ip4
build fl f = build_payload fl.list 0 [] >>= λ final. ok (rebuilt fl f final)

-- The counters, after the fragment took its place.
unfoldable pub count_fragment : FragmentList → Ip4 → List Ip4 → ℕ → FragmentList
count_fragment fl f placed t =
    let frag_length = sub16 f.length 20 in
    let last = (offset f + frag_length) % 65536 in
    record {
      list = placed;
      highest = if ltb fl.highest last then last else fl.highest;
      current = (fl.current + frag_length) % 65536;
      final_received = if not f.flags.more_fragments then true else fl.final_received;
      last_seen = t;
    }

unfoldable pub placed_in : FragmentList → Ip4 → Option (List Ip4)
placed_in fl f = if leb fl.highest (offset f) then some (fl.list ++ f ∷ []) else place f fl.list

-- `build`, if the fragments are complete.
unfoldable pub try_build : FragmentList → Ip4 → Outcome DefragError (Option Ip4)
try_build fl f =
    if fl.final_received && fl.highest == fl.current
    then (build fl f >>= λ out. ok (some out))
    else ok none

unfoldable pub insert_at :
    Option (List Ip4) → FragmentList → Ip4 → ℕ → FragmentList × Outcome DefragError (Option Ip4)
insert_at none fl f t = (fl, ok none)
insert_at (some placed) fl f t = let fl' = count_fragment fl f placed t in (fl', try_build fl' f)

unfoldable pub insert : FragmentList → Ip4 → ℕ → FragmentList × Outcome DefragError (Option Ip4)
insert fl f t = insert_at (placed_in fl f) fl f t
