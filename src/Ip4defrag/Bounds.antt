-- ===== src/Ip4defrag/Bounds.antt =====
-- ip4defrag/defrag.go: the map of flows holds each key once, its lists stay below the maximum,
-- and `DiscardOlderThan` drops the old flows.
use heplify.Common.{
  ℕ, ◌+◌, ◌≤◌, ◌≡◌, ◌≢◌, inl, inr, refl, sym, ap, ◌∙◌, false, [], ◌∷◌, Option, some, none, length,
  arith, All, ltb, if◌then◌else◌, Bool-cases, Option-cases, not_ltb→le, Outcome, ok, err, panic,
  stuck,
}
use heplify.Ip4defrag.{Ip4, DefragError, dont_defrag, security_checks}
use heplify.Ip4defrag.FragmentList.{FragmentList, new_fragment_list, insert}
use heplify.Ip4defrag.Defragmenter.{
  Network, FlowKey, new_ipv4, same_key, Flows, find_flow, put_flow, flush, settle, flow_of,
  defrag_fragment, defrag_checked, defrag_ipv4_with_timestamp, discard_older_than,
}
use heplify.Ip4defrag.Flows.{same_key_iff, same_key_refl, same_key_congr, find_flow-put_flow}

module _ (net : Network) where
  -- No list is so long that one more fragment would pass the maximum.
  abbrev pub AllBounded : Flows net → Type 0
  AllBounded d = All (λ e. length e.1.list ≤ 8191) d

  -- Each key stands in the map once.
  abbrev pub AllDistinct : Flows net → Type 0
  AllDistinct [] = Unit
  AllDistinct ((k, fl) ∷ d) = (find_flow net k d ≡ none) × AllDistinct d

  put_flow_twice :
      (k : FlowKey net) (fl gl : FragmentList) (d : Flows net)
      → put_flow net k gl (put_flow net k fl d) ≡ put_flow net k gl d
  unfolding put_flow
  put_flow_twice k fl gl [] = rw (same_key_refl net k)
  put_flow_twice k fl gl ((j, hl) ∷ d) = elim (Bool-cases (same_key net j k)) [
    | inl same ↦ rw same (rw (same_key_refl net k))
    | inr other ↦ rw other (rw (other, put_flow_twice k fl gl d))
  ]

  put_flow-AllBounded :
      (k : FlowKey net) (fl : FragmentList) (d : Flows net)
      → length fl.list ≤ 8191
      → AllBounded d
      → AllBounded (put_flow net k fl d)
  unfolding put_flow
  put_flow-AllBounded k fl [] h all = (h, tt)
  put_flow-AllBounded k fl ((j, hl) ∷ d) h (b, all) = elim (Bool-cases (same_key net j k)) [
    | inl same ↦ rw same (h, all)
    | inr other ↦ rw other (b, put_flow-AllBounded k fl d h all)
  ]

  flush-AllBounded :
      (k : FlowKey net) (fl : FragmentList) (d : Flows net)
      → AllBounded d
      → AllBounded (flush net k (put_flow net k fl d))
  unfolding flush
  flush-AllBounded k fl d all =
      rw (put_flow_twice k fl new_fragment_list d)
        (put_flow-AllBounded k new_fragment_list d (omega arith) all)

  settle-AllBounded :
      (k : FlowKey net) (fl : FragmentList) (d : Flows net) (r : Outcome DefragError (Option Ip4))
      → AllBounded d
      → (settle net k fl (put_flow net k fl d) r).1 ≢ panic
      → (settle net k fl (put_flow net k fl d) r).1 ≢ stuck
      → AllBounded (settle net k fl (put_flow net k fl d) r).0
  unfolding settle
  settle-AllBounded k fl d (ok (some out)) all np ns = flush-AllBounded k fl d all
  settle-AllBounded k fl d panic all np ns = absurd (np refl)
  settle-AllBounded k fl d stuck all np ns = absurd (ns refl)
  settle-AllBounded k fl d (ok none) all np ns = elim (Bool-cases (ltb 8192 (length fl.list + 1))) [
    | inl full ↦ rw full (flush-AllBounded k fl d all)
    | inr room ↦
        rw room (
          put_flow-AllBounded k fl d (omega (arith, not_ltb→le 8192 (length fl.list + 1) room)) all)
  ]
  settle-AllBounded k fl d (err e) all np ns = elim (Bool-cases (ltb 8192 (length fl.list + 1))) [
    | inl full ↦ rw full (flush-AllBounded k fl d all)
    | inr room ↦
        rw room (
          put_flow-AllBounded k fl d (omega (arith, not_ltb→le 8192 (length fl.list + 1) room)) all)
  ]

  -- No list grows past the maximum: a call that ends leaves every list with room for a fragment.
  pub defrag_ipv4_with_timestamp-AllBounded :
      (d : Flows net) (ip : Ip4) (t : ℕ)
      → AllBounded d
      → (defrag_ipv4_with_timestamp net d ip t).1 ≢ panic
      → (defrag_ipv4_with_timestamp net d ip t).1 ≢ stuck
      → AllBounded (defrag_ipv4_with_timestamp net d ip t).0
  unfolding defrag_ipv4_with_timestamp defrag_checked defrag_fragment
  defrag_ipv4_with_timestamp-AllBounded d ip t all =
      let k = new_ipv4 net ip in
      let r = insert (flow_of net (find_flow net k d)) ip t in
      elim (Bool-cases (dont_defrag ip)) [
        | inl whole ↦ rw whole (λ np ns. all)
        | inr part ↦ elim (Option-cases (security_checks ip)) [
          | inr (x, bad) ↦ rw (part, bad) (λ np ns. all)
          | inl fine ↦ rw (part, fine) (settle-AllBounded k r.0 d r.1 all)
        ]
      ]

  not_same_symm : (j k : FlowKey net) → same_key net j k ≡ false → same_key net k j ≡ false
  not_same_symm j k other = elim (Bool-cases (same_key net k j)) [
    | inl same ↦ cc (other, same_key_congr net k j k same, same_key_refl net k)
    | inr unlike ↦ unlike
  ]

  pub put_flow-AllDistinct :
      (k : FlowKey net) (fl : FragmentList) (d : Flows net)
      → AllDistinct d
      → AllDistinct (put_flow net k fl d)
  unfolding put_flow
  put_flow-AllDistinct k fl [] all = (unfold find_flow in refl, tt)
  put_flow-AllDistinct k fl ((j, hl) ∷ d) (fresh, all) = elim (Bool-cases (same_key net j k)) [
    | inl same ↦
        rw same (ap (λ i. find_flow net i d) (sym ((same_key_iff net j k).0 same)) ∙ fresh, all)
    | inr other ↦ rw other (
      rw (find_flow-put_flow net, not_same_symm j k other) fresh,
      put_flow-AllDistinct k fl d all,
    )
  ]

  settle-AllDistinct :
      (k : FlowKey net) (fl : FragmentList) (d : Flows net) (r : Outcome DefragError (Option Ip4))
      → AllDistinct d
      → AllDistinct (settle net k fl d r).0
  unfolding settle flush
  settle-AllDistinct k fl d (ok (some out)) all = put_flow-AllDistinct k new_fragment_list d all
  settle-AllDistinct k fl d panic all = all
  settle-AllDistinct k fl d stuck all = all
  settle-AllDistinct k fl d (ok none) all = elim (Bool-cases (ltb 8192 (length fl.list + 1))) [
    | inl full ↦ rw full (put_flow-AllDistinct k new_fragment_list d all)
    | inr room ↦ rw room all
  ]
  settle-AllDistinct k fl d (err e) all = elim (Bool-cases (ltb 8192 (length fl.list + 1))) [
    | inl full ↦ rw full (put_flow-AllDistinct k new_fragment_list d all)
    | inr room ↦ rw room all
  ]

  -- The map keeps each key once.
  defrag_ipv4_with_timestamp-AllDistinct :
      (d : Flows net) (ip : Ip4) (t : ℕ)
      → AllDistinct d
      → AllDistinct (defrag_ipv4_with_timestamp net d ip t).0
  unfolding defrag_ipv4_with_timestamp defrag_checked defrag_fragment
  defrag_ipv4_with_timestamp-AllDistinct d ip t all =
      let k = new_ipv4 net ip in
      let r = insert (flow_of net (find_flow net k d)) ip t in
      elim (Bool-cases (dont_defrag ip)) [
        | inl whole ↦ rw whole all
        | inr part ↦ elim (Option-cases (security_checks ip)) [
          | inr (x, bad) ↦ rw (part, bad) all
          | inl fine ↦
              rw (part, fine)
                (settle-AllDistinct k r.0 (put_flow net k r.0 d) r.1
                  (put_flow-AllDistinct k r.0 d all))
        ]
      ]

  -- What is left of a flow when those last seen before `t` are dropped.
  abbrev pub kept_since : ℕ → Option FragmentList → Option FragmentList
  kept_since t none = none
  kept_since t (some fl) = if ltb fl.last_seen t then none else some fl

  find_flow-discard_older_than :
      (t : ℕ) (j : FlowKey net) (d : Flows net)
      → AllDistinct d
      → find_flow net j (discard_older_than net t d).0 ≡ kept_since t (find_flow net j d)
  unfolding find_flow discard_older_than
  find_flow-discard_older_than t j [] all = refl
  find_flow-discard_older_than t j ((k, fl) ∷ d) (fresh, all) =
      let rest = find_flow-discard_older_than t j d all in
      elim (Bool-cases (ltb fl.last_seen t)) [
        | inl old ↦ elim (Bool-cases (same_key net k j)) [
          | inl same ↦
              let gone : find_flow net j d ≡ none =
                ap (λ i. find_flow net i d) (sym ((same_key_iff net k j).0 same)) ∙ fresh in
              rw (old, same) (rest ∙ ap (kept_since t) gone ∙ rw old)
          | inr other ↦ rw (old, other) rest
        ]
        | inr young ↦ elim (Bool-cases (same_key net k j)) [
          | inl same ↦ rw (young, same) (rw young)
          | inr other ↦ rw (young, other) rest
        ]
      ]

  length-discard_older_than :
      (t : ℕ) (d : Flows net)
      → length (discard_older_than net t d).0 + (discard_older_than net t d).1 ≡ length d
  unfolding discard_older_than
  length-discard_older_than t [] = refl
  length-discard_older_than t ((k, fl) ∷ d) = ground (arith, length-discard_older_than t d)

  -- `DiscardOlderThan` forgets exactly the flows last seen before `t`, and returns their number.
  pub discard_older_than_lem :
      (t : ℕ) (d : Flows net)
      → AllDistinct d
      → ((j : FlowKey net)
          → find_flow net j (discard_older_than net t d).0 ≡ kept_since t (find_flow net j d))
        × (length (discard_older_than net t d).0 + (discard_older_than net t d).1 ≡ length d)
  discard_older_than_lem t d all =
      (λ j. find_flow-discard_older_than t j d all, length-discard_older_than t d)
