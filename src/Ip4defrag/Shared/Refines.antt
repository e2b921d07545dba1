-- ===== src/Ip4defrag/Shared/Refines.antt =====
-- ip4defrag/defrag.go: with nothing in between its steps, a call on shared lists is the call of
-- `Defragmenter` on the lists themselves.
use heplify.Common.{
  ℕ, ◌+◌, ◌≡◌, refl, sym, ap, ◌∙◌, inl, inr, [], ◌∷◌, Option, none, some, length, ltb, Bool-cases,
  Option-cases, Outcome, ok, err, panic, stuck,
}
use heplify.Ip4defrag.{Ip4, DefragError, list_full, maximum_fragment_list_len}
use heplify.Ip4defrag.FragmentList.{FragmentList, new_fragment_list, insert}
use heplify.Ip4defrag.Defragmenter.{
  Network, FlowKey, Flows, new_ipv4, find_flow, put_flow, flush, settle, flow_of, defrag_fragment,
  discard_older_than,
}
use heplify.Ip4defrag.Shared.{
  update, Table, Shared, find_ptr, put_new, obtain, insert_shared, settle_shared, insert_and_settle,
  defrag_shared, keep_since, discard_shared,
}
use heplify.Ip4defrag.Shared.View.{
  update_self, view, flows, IsWellFormed, Apart-Same, IsFrom-Apart, find_flow-view, view-put_ptr,
  view-update, find_ptr-put_ptr, put_flow-put_flow, IsFrom-put_ptr,
}

module _ (net : Network) where
  -- A new list in the map.
  flows-put_new :
      (k : FlowKey net) (s : Shared net)
      → IsWellFormed net s
      → flows net (put_new net k s) ≡ put_flow net k new_fragment_list (flows net s)
  unfolding put_new
  flows-put_new k s from =
      view-put_ptr net k s.fresh s.store (update s.store s.fresh new_fragment_list) s.table (
        Apart-Same net s.store s.fresh new_fragment_list s.table
          (IsFrom-Apart net s.fresh s.table from))
      ∙ ap (λ fl. put_flow net k fl (flows net s)) (update_self s.store s.fresh new_fragment_list)

  put_new-IsWellFormed :
      (k : FlowKey net) (s : Shared net) → IsWellFormed net s → IsWellFormed net (put_new net k s)
  unfolding put_new
  put_new-IsWellFormed k s from = IsFrom-put_ptr net k s.fresh s.table from

  -- After the first step the pointer is in the map, and what it leads to is the list looked for.
  pub record Looked (k : FlowKey net) (s : Shared net) (r : ℕ × Shared net) : Type 0 where
    pub found : find_ptr net k (r.1).table ≡ some r.0
    pub from : IsWellFormed net r.1
    pub list : (r.1).store r.0 ≡ flow_of net (find_flow net k (flows net s))
    pub kept :
        (fl : FragmentList) → put_flow net k fl (flows net r.1) ≡ put_flow net k fl (flows net s)

  obtain-Looked :
      (k : FlowKey net) (s : Shared net) → IsWellFormed net s → Looked k s (obtain net k s)
  unfolding obtain
  obtain-Looked k s from = elim (Option-cases (find_ptr net k s.table)) [
    | inl e ↦
        rw (obtain, e)
          (record {
            found = find_ptr-put_ptr net k s.fresh s.table;
            from = put_new-IsWellFormed k s from;
            list =
                update_self s.store s.fresh new_fragment_list
                ∙ sym (find_flow-view net k s.store s.table ∙ rw e refl);
            kept = λ fl.
                ap (put_flow net k fl) (flows-put_new k s from)
                ∙ put_flow-put_flow net k fl new_fragment_list (flows net s);
          })
    | inr (p, e) ↦
        rw (obtain, e)
          (record {
            found = e;
            from = from;
            list = sym (find_flow-view net k s.store s.table ∙ rw e refl);
            kept = λ fl. refl;
          })
  ]

  -- Shared lists that stand for these flows, with the same answer.
  abbrev pub Refined :
      Shared net × Outcome DefragError (Option Ip4)
      → Flows net × Outcome DefragError (Option Ip4)
      → Type 0
  Refined (s, a) (d, b) = (flows net s ≡ d) × (a ≡ b) × IsWellFormed net s

  put_new-Refined :
      (k : FlowKey net) (s : Shared net) (d : Flows net) (r : Outcome DefragError (Option Ip4))
      → flows net s ≡ d
      → IsWellFormed net s
      → Refined (put_new net k s, r) (flush net k d, r)
  unfolding flush
  put_new-Refined k s d r e from = (
    flows-put_new k s from ∙ ap (put_flow net k new_fragment_list) e,
    refl,
    put_new-IsWellFormed k s from,
  )

  settle-Refined :
      (k : FlowKey net) (fl : FragmentList) (s : Shared net) (d : Flows net)
      (r : Outcome DefragError (Option Ip4))
      → flows net s ≡ d
      → IsWellFormed net s
      → Refined (settle_shared net k fl s r) (settle net k fl d r)
  unfolding settle_shared settle
  settle-Refined k fl s d (ok (some out)) e from = put_new-Refined k s d (ok (some out)) e from
  settle-Refined k fl s d panic e from = (e, refl, from)
  settle-Refined k fl s d stuck e from = (e, refl, from)
  settle-Refined k fl s d (ok none) e from =
      elim (Bool-cases (ltb maximum_fragment_list_len (length fl.list + 1))) [
        | inl full ↦ rw full (put_new-Refined k s d (err list_full) e from)
        | inr few ↦ rw few (e, refl, from)
      ]
  settle-Refined k fl s d (err x) e from =
      elim (Bool-cases (ltb maximum_fragment_list_len (length fl.list + 1))) [
        | inl full ↦ rw full (put_new-Refined k s d (err list_full) e from)
        | inr few ↦ rw few (e, refl, from)
      ]

  insert_and_settle-Refined :
      (k : FlowKey net) (ip : Ip4) (t : ℕ) (s : Shared net) (r : ℕ × Shared net)
      → Looked k s r
      → Refined (insert_and_settle net k ip t r) (
          let (fl, a) = insert (flow_of net (find_flow net k (flows net s))) ip t in
          settle net k fl (put_flow net k fl (flows net s)) a)
  unfolding insert_and_settle insert_shared
  insert_and_settle-Refined k ip t s (p, s1) l = rw (sym l.list) (
      let (fl, a) = insert (s1.store p) ip t in
      settle-Refined k fl (record s1 { store = update s1.store p fl })
        (put_flow net k fl (flows net s)) a
        (view-update net k p s1.fresh fl s1.store s1.table l.from l.found ∙ l.kept fl) l.from)

  -- With nothing in between its steps, the call on shared lists gives the answer of the call on the flows
  -- that they stand for, and leaves lists that stand for the flows afterwards, all pointers apart.
  pub defrag_shared-Refined :
      (s : Shared net) (ip : Ip4) (t : ℕ)
      → IsWellFormed net s
      → Refined (defrag_shared net s ip t) (defrag_fragment net (flows net s) ip t)
  unfolding defrag_shared defrag_fragment
  defrag_shared-Refined s ip t from =
      insert_and_settle-Refined (new_ipv4 net ip) ip t s (obtain net (new_ipv4 net ip) s)
        (obtain-Looked (new_ipv4 net ip) s from)

  view-keep_since :
      (t : ℕ) (store : ℕ → FragmentList) (m : Table net)
      → view net store (keep_since net t store m) ≡ (discard_older_than net t (view net store m)).0
  unfolding keep_since discard_older_than view
  view-keep_since t store [] = refl
  view-keep_since t store ((k, p) ∷ m) = elim (Bool-cases (ltb (store p).last_seen t)) [
    | inl e ↦ rw e (view-keep_since t store m)
    | inr e ↦ rw e (ap ((k, store p) ∷◌) (view-keep_since t store m))
  ]

  -- `DiscardOlderThan` on shared lists is that on the flows.
  pub flows-discard_shared :
      (t : ℕ) (s : Shared net)
      → flows net (discard_shared net t s) ≡ (discard_older_than net t (flows net s)).0
  unfolding discard_shared
  flows-discard_shared t s = view-keep_since t s.store s.table
