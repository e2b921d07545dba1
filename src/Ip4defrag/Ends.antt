-- ===== src/Ip4defrag/Ends.antt =====
-- ip4defrag/defrag.go: every call ends.
use heplify.Common.{
  ℕ, ◌+◌, List, [], ◌∷◌, Option, none, some, Bool-cases, refl, length, ltb, ◌==◌, ◌&&◌,
  if◌then◌else◌, Outcome, ok, err, panic, stuck, inl, inr,
}
use heplify.Common.Bytes.{Bytes}
use heplify.Common.Gives.{returns, fails, panics, Gives-if, Gives-ne-stuck, Ends, Ends-bind}
use heplify.Ip4defrag.{Ip4, DefragError, sub16, dont_defrag, maximum_fragment_list_len}
use heplify.Ip4defrag.FragmentList.{
  FragmentList, offset, count_fragment, build_payload, build, placed_in, try_build, insert_at,
  insert,
}
use heplify.Ip4defrag.Defragmenter.{
  Network, FlowKey, Flows, settle, defrag_fragment, defrag_checked, defrag_ipv4_with_timestamp,
}

build_payload-Ends :
    (fs : List Ip4) (current : ℕ) (final : Bytes) → Ends (build_payload fs current final)
unfolding build_payload
build_payload-Ends [] current final = returns tt
build_payload-Ends (f ∷ fs) current final =
    Gives-if (offset f == current) (λ e. build_payload-Ends fs _ _)
      (λ e.
        Gives-if (ltb (offset f) current)
          (λ e.
            Gives-if (ltb (sub16 f.length 20) (sub16 current (offset f))) (λ e. fails)
              (λ e.
                Ends-bind
                  (Gives-if (ltb (length f.payload) (sub16 current (offset f))) (λ e. panics)
                    (λ e. returns tt))
                  (λ b. build_payload-Ends fs _ _)))
          (λ e. fails))

try_build-Ends : (fl : FragmentList) (f : Ip4) → Ends (try_build fl f)
unfolding try_build build
try_build-Ends fl f =
    Gives-if (fl.final_received && fl.highest == fl.current)
      (λ e.
        Ends-bind (Ends-bind (build_payload-Ends fl.list 0 []) (λ v. returns tt)) (λ v. returns tt))
      (λ e. returns tt)

insert_at-Ends :
    (o : Option (List Ip4)) (fl : FragmentList) (f : Ip4) (t : ℕ) → Ends (insert_at o fl f t).1
unfolding insert_at
insert_at-Ends none fl f t = returns tt
insert_at-Ends (some placed) fl f t = try_build-Ends (count_fragment fl f placed t) f

insert-Ends : (fl : FragmentList) (f : Ip4) (t : ℕ) → Ends (insert fl f t).1
unfolding insert
insert-Ends fl f t = insert_at-Ends (placed_in fl f) fl f t

module _ (net : Network) where
  settle-Ends :
      (k : FlowKey net) (fl : FragmentList) (d : Flows net) (r : Outcome DefragError (Option Ip4))
      → Ends r
      → Ends (settle net k fl d r).1
  unfolding settle
  settle-Ends k fl d (ok (some out)) h = returns tt
  settle-Ends k fl d panic h = panics
  settle-Ends k fl d stuck h = absurd (Gives-ne-stuck h refl)
  settle-Ends k fl d (ok none) h =
      elim (Bool-cases (ltb maximum_fragment_list_len (length fl.list + 1))) [
        | inl e ↦ rw e fails
        | inr e ↦ rw e (returns tt)
      ]
  settle-Ends k fl d (err x) h =
      elim (Bool-cases (ltb maximum_fragment_list_len (length fl.list + 1))) [
        | inl e ↦ rw e fails
        | inr e ↦ rw e fails
      ]

  defrag_checked-Ends :
      (e : Option DefragError) (d : Flows net) (ip : Ip4) (t : ℕ)
      → Ends (defrag_checked net e d ip t).1
  unfolding defrag_checked defrag_fragment
  defrag_checked-Ends (some e) d ip t = fails
  defrag_checked-Ends none d ip t = settle-Ends _ _ _ _ (insert-Ends _ ip t)

  pub defrag_ipv4_with_timestamp-Ends :
      (d : Flows net) (ip : Ip4) (t : ℕ) → Ends (defrag_ipv4_with_timestamp net d ip t).1
  unfolding defrag_ipv4_with_timestamp
  defrag_ipv4_with_timestamp-Ends d ip t = elim (Bool-cases (dont_defrag ip)) [
    | inl e ↦ rw (e, if◌then◌else◌) (returns tt)
    | inr e ↦ rw (e, if◌then◌else◌) (defrag_checked-Ends _ d ip t)
  ]
