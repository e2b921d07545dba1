-- ===== src/Ip4defrag/Shared/Race.antt =====
-- ip4defrag/defrag.go: `DiscardOlderThan` between the steps of a call.
use heplify.Common.{
  ℕ, ◌+◌, ◌<◌, ◌≡◌, refl, sym, ap, ◌∙◌, inl, inr, [], ◌∷◌, none, length, ltb, lt→ltb, le→ltb,
  Bool-cases, All, ok, arith,
}
use heplify.Ip4defrag.{Ip4, maximum_fragment_list_len}
use heplify.Ip4defrag.FragmentList.{FragmentList, new_fragment_list, insert}
use heplify.Ip4defrag.Defragmenter.{Network, FlowKey, new_ipv4, same_key, discard_older_than}
use heplify.Ip4defrag.Shared.{
  update, Table, Shared, find_ptr, put_ptr, put_new, obtain, insert_shared, settle_shared,
  insert_and_settle, keep_since, discard_shared, defrag_interrupted,
}
use heplify.Ip4defrag.Shared.View.{
  update_self, update_other, view, flows, Apart, IsWellFormed, view-Same, Apart-Same, IsFrom-Apart,
  find_ptr-first, find_ptr-later,
}
use heplify.Ip4defrag.Shared.Refines.{flows-discard_shared}

module _ (net : Network) where
  -- A new list has the zero time, so it is older than any time but that.
  keep_since-put_ptr :
      (k : FlowKey net) (t fresh : ℕ) (store : ℕ → FragmentList) (m : Table net)
      → 0 < t
      → find_ptr net k m ≡ none
      → All (Apart net fresh) m
      → keep_since net t (update store fresh new_fragment_list) (put_ptr net k fresh m)
        ≡ keep_since net t store m
  unfolding keep_since put_ptr find_ptr
  keep_since-put_ptr k t fresh store [] later e apart =
      rw (update_self store fresh new_fragment_list, lt→ltb 0 t later) refl
  keep_since-put_ptr k t fresh store ((j, p) ∷ m) later e (ne, apart) =
      elim (Bool-cases (same_key net j k)) [
        | inl s ↦ let first = find_ptr-first net k j p m s in cc
        | inr s ↦
            let ih =
              keep_since-put_ptr k t fresh store m later (sym (find_ptr-later net k j p m s) ∙ e)
                apart in
            rw (s, update_other store fresh p new_fragment_list ne)
              (elim (Bool-cases (ltb (store p).last_seen t)) [
                | inl h ↦ rw h ih
                | inr h ↦ rw h (ap ((j, p) ∷◌) ih)
              ])
      ]

  keep_since-All :
      (t p : ℕ) (store : ℕ → FragmentList) (m : Table net)
      → All (Apart net p) m
      → All (Apart net p) (keep_since net t store m)
  unfolding keep_since
  keep_since-All t p store [] apart = tt
  keep_since-All t p store ((k, q) ∷ m) (ne, apart) =
      elim (Bool-cases (ltb (store q).last_seen t)) [
        | inl e ↦ rw e (keep_since-All t p store m apart)
        | inr e ↦ rw e (ne, keep_since-All t p store m apart)
      ]

  -- `DiscardOlderThan` comes between the look-up and the insertion of the first fragment of a flow, with
  -- any time but the zero time. The call answers that more fragments are awaited, but its fragment is
  -- lost: the flows are those that `DiscardOlderThan` leaves of the flows before the call.
  pub defrag_interrupted-lost :
      (s : Shared net) (ip : Ip4) (t t0 : ℕ) (fl : FragmentList)
      → IsWellFormed net s
      → find_ptr net (new_ipv4 net ip) s.table ≡ none
      → 0 < t0
      → insert new_fragment_list ip t ≡ (fl, ok none)
      → length fl.list < maximum_fragment_list_len
      → (flows net (defrag_interrupted net t0 s ip t).0
          ≡ (discard_older_than net t0 (flows net s)).0)
        × ((defrag_interrupted net t0 s ip t).1 ≡ ok none)
  unfolding defrag_interrupted obtain insert_and_settle insert_shared settle_shared discard_shared
      put_new
  defrag_interrupted-lost s ip t t0 fl from unknown later waits few =
      let k = new_ipv4 net ip in
      let apart = IsFrom-Apart net s.fresh s.table from in
      let kept = keep_since-put_ptr k t0 s.fresh s.store s.table later unknown apart in
      let made = update s.store s.fresh new_fragment_list in
      let left = keep_since net t0 s.store s.table in
      let others = keep_since-All t0 s.fresh s.store s.table apart in
      rw
        (
          obtain,
          unknown,
          update_self s.store s.fresh new_fragment_list,
          waits,
          le→ltb maximum_fragment_list_len (length fl.list + 1) (omega arith),
        )
        (
          ap (view net (update made s.fresh fl)) kept
              ∙ view-Same net made (update made s.fresh fl) left
                  (Apart-Same net made s.fresh fl left others)
              ∙ view-Same net s.store made left
                  (Apart-Same net s.store s.fresh new_fragment_list left others)
              ∙ flows-discard_shared net t0 s,
          refl,
        )
