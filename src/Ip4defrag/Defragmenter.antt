-- ===== src/Ip4defrag/Defragmenter.antt =====
-- ip4defrag/defrag.go: the map of flows, `DefragIPv4WithTimestamp` and `DiscardOlderThan`. Each
-- call runs to its end before the next; the steps between which the lock is given up are in Shared.
use heplify.Common.{
  ℕ, ◌+◌, Bool, true, ◌&&◌, List, [], ◌∷◌, Option, none, some, length, ltb, ◌==◌, if◌then◌else◌,
  Outcome, ok, err, panic, stuck, ◌≡◌, ◌↔◌,
}
use heplify.Ip4defrag.{
  Ip4, DefragError, list_full, dont_defrag, security_checks, maximum_fragment_list_len,
}
use heplify.Ip4defrag.FragmentList.{FragmentList, new_fragment_list, insert}

-- gopacket's `NetworkFlow`, and Go's comparison of the flows, which is equality.
pub record Network : Type 1 where
  pub Flow : Type 0
  pub network_flow : Ip4 → Flow
  pub same : Flow → Flow → Bool
  pub same_iff : (a b : Flow) → (same a b ≡ true) ↔ (a ≡ b)

module _ (net : Network) where
  open net use {Flow, network_flow, same}

  pub record FlowKey : Type 0 where
    pub ip4 : Flow
    pub id : ℕ

  -- `newIPv4`
  abbrev pub new_ipv4 : Ip4 → FlowKey
  new_ipv4 ip = record { ip4 = network_flow ip; id = ip.id }

  abbrev pub same_key : FlowKey → FlowKey → Bool
  same_key a b = same a.ip4 b.ip4 && a.id == b.id

  -- `map[ipv4]*fragmentList`
  abbrev pub Flows : Type 0
  Flows = List (FlowKey × FragmentList)

  unfoldable pub find_flow : FlowKey → Flows → Option FragmentList
  find_flow k [] = none
  find_flow k ((j, fl) ∷ m) = if same_key j k then some fl else find_flow k m

  unfoldable pub put_flow : FlowKey → FragmentList → Flows → Flows
  put_flow k fl [] = (k, fl) ∷ []
  put_flow k fl ((j, gl) ∷ m) = if same_key j k then (k, fl) ∷ m else (j, gl) ∷ put_flow k fl m

  unfoldable pub flush : FlowKey → Flows → Flows
  flush k d = put_flow k new_fragment_list d

  -- What the call does with the answer of `insert`.
  unfoldable pub settle :
      FlowKey
      → FragmentList
      → Flows
      → Outcome DefragError (Option Ip4)
      → Flows × Outcome DefragError (Option Ip4)
  settle k fl d (ok (some out)) = (flush k d, ok (some out))
  settle k fl d panic = (d, panic)
  settle k fl d stuck = (d, stuck)
  settle k fl d (ok none) =
      if ltb maximum_fragment_list_len (length fl.list + 1)
      then (flush k d, err list_full)
      else (d, ok none)
  settle k fl d (err e) =
      if ltb maximum_fragment_list_len (length fl.list + 1)
      then (flush k d, err list_full)
      else (d, err e)

  abbrev pub flow_of : Option FragmentList → FragmentList
  flow_of none = new_fragment_list
  flow_of (some fl) = fl

  unfoldable pub defrag_fragment : Flows → Ip4 → ℕ → Flows × Outcome DefragError (Option Ip4)
  defrag_fragment d ip t =
      let k = new_ipv4 ip in
      let (fl, r) = insert (flow_of (find_flow k d)) ip t in settle k fl (put_flow k fl d) r

  unfoldable pub defrag_checked :
      Option DefragError → Flows → Ip4 → ℕ → Flows × Outcome DefragError (Option Ip4)
  defrag_checked (some e) d ip t = (d, err e)
  defrag_checked none d ip t = defrag_fragment d ip t

  unfoldable pub defrag_ipv4_with_timestamp :
      Flows → Ip4 → ℕ → Flows × Outcome DefragError (Option Ip4)
  defrag_ipv4_with_timestamp d ip t =
      if dont_defrag ip then (d, ok (some ip)) else defrag_checked (security_checks ip) d ip t

  -- The flows that stay, and the number of those that are deleted.
  unfoldable pub discard_older_than : ℕ → Flows → Flows × ℕ
  discard_older_than t [] = ([], 0)
  discard_older_than t ((k, fl) ∷ m) =
      let (kept, n) = discard_older_than t m in
      if ltb fl.last_seen t then (kept, n + 1) else ((k, fl) ∷ kept, n)
