-- ===== src/Ip4defrag/Shared.antt =====
-- ip4defrag/defrag.go: the map holds pointers to the fragment lists. Looking up a list, inserting into it
-- and settling the answer are three steps, and the lock is held in the first and the last only.
pub mod View
pub mod Refines
pub mod Race
mod Runs
use heplify.Common.{
  ℕ, ◌+◌, List, [], ◌∷◌, Option, none, some, length, ltb, ◌==◌, if◌then◌else◌, Outcome, ok, err,
  panic, stuck,
}
use heplify.Ip4defrag.{
  Ip4, DefragError, list_full, dont_defrag, security_checks, maximum_fragment_list_len,
}
use heplify.Ip4defrag.FragmentList.{FragmentList, new_fragment_list, insert}
use heplify.Ip4defrag.Defragmenter.{Network, FlowKey, Flows, new_ipv4, same_key}

-- A write through a pointer.
abbrev pub update : (ℕ → FragmentList) → ℕ → FragmentList → ℕ → FragmentList
update store p fl q = if p == q then fl else store q

module _ (net : Network) where
  abbrev pub Table : Type 0
  Table = List (FlowKey net × ℕ)

  -- The lists in memory, the next pointer, and the map.
  pub record Shared : Type 0 where
    pub store : ℕ → FragmentList
    pub fresh : ℕ
    pub table : Table

  unfoldable pub find_ptr : FlowKey net → Table → Option ℕ
  find_ptr k [] = none
  find_ptr k ((j, p) ∷ m) = if same_key net j k then some p else find_ptr k m

  unfoldable pub put_ptr : FlowKey net → ℕ → Table → Table
  put_ptr k p [] = (k, p) ∷ []
  put_ptr k p ((j, q) ∷ m) = if same_key net j k then (k, p) ∷ m else (j, q) ∷ put_ptr k p m

  -- `new(fragmentList)`, put into the map.
  unfoldable pub put_new : FlowKey net → Shared → Shared
  unfolding put_ptr
  put_new k s = record {
    store = update s.store s.fresh new_fragment_list;
    fresh = s.fresh + 1;
    table = put_ptr k s.fresh s.table;
  }

  -- The first step, under the lock.
  unfoldable pub obtain : FlowKey net → Shared → ℕ × Shared
  unfolding find_ptr put_new
  obtain k s = elim (find_ptr k s.table) [ some p ↦ (p, s) | none ↦ (s.fresh, put_new k s) ]

  -- `fl.insert(in, t)`, without the lock.
  unfoldable pub insert_shared :
      ℕ → Ip4 → ℕ → Shared → Shared × (FragmentList × Outcome DefragError (Option Ip4))
  insert_shared p ip t s =
      let (fl, r) = insert (s.store p) ip t in (record s { store = update s.store p fl }, (fl, r))

  -- What follows, where `flush` takes the lock.
  unfoldable pub settle_shared :
      FlowKey net
      → FragmentList
      → Shared
      → Outcome DefragError (Option Ip4)
      → Shared × Outcome DefragError (Option Ip4)
  unfolding put_new
  settle_shared k fl s (ok (some out)) = (put_new k s, ok (some out))
  settle_shared k fl s panic = (s, panic)
  settle_shared k fl s stuck = (s, stuck)
  settle_shared k fl s (ok none) =
      if ltb maximum_fragment_list_len (length fl.list + 1)
      then (put_new k s, err list_full)
      else (s, ok none)
  settle_shared k fl s (err e) =
      if ltb maximum_fragment_list_len (length fl.list + 1)
      then (put_new k s, err list_full)
      else (s, err e)

  -- The last two steps.
  unfoldable pub insert_and_settle :
      FlowKey net → Ip4 → ℕ → ℕ × Shared → Shared × Outcome DefragError (Option Ip4)
  unfolding insert_shared settle_shared
  insert_and_settle k ip t (p, s) =
      let (s', (fl, r)) = insert_shared p ip t s in settle_shared k fl s' r

  -- The three steps with nothing in between.
  unfoldable pub defrag_shared : Shared → Ip4 → ℕ → Shared × Outcome DefragError (Option Ip4)
  unfolding obtain insert_and_settle
  defrag_shared s ip t = insert_and_settle (new_ipv4 net ip) ip t (obtain (new_ipv4 net ip) s)

  -- `DiscardOlderThan`, under the lock.
  unfoldable pub keep_since : ℕ → (ℕ → FragmentList) → Table → Table
  keep_since t store [] = []
  keep_since t store ((k, p) ∷ m) =
      let kept = keep_since t store m in if ltb (store p).last_seen t then kept else (k, p) ∷ kept

  unfoldable pub discard_shared : ℕ → Shared → Shared
  unfolding keep_since
  discard_shared t s = record s { table = keep_since t s.store s.table }

  -- A call that `DiscardOlderThan` comes into after the first step.
  unfoldable pub defrag_interrupted :
      ℕ → Shared → Ip4 → ℕ → Shared × Outcome DefragError (Option Ip4)
  unfolding obtain insert_and_settle discard_shared
  defrag_interrupted t0 s ip t =
      let (p, s1) = obtain (new_ipv4 net ip) s in
      insert_and_settle (new_ipv4 net ip) ip t (p, discard_shared t0 s1)
