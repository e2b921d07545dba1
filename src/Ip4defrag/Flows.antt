-- ===== src/Ip4defrag/Flows.antt =====
-- ip4defrag/defrag.go: the flows of a defragmenter do not disturb one another, their lists stay
-- bounded, and old flows are dropped.
use heplify.Common.{
  ℕ, ◌+◌, ◌≡◌, inl, inr, ◌↔◌, refl, ap, ◌∙◌, Bool, true, false, [], ◌∷◌, Option, some, none, length,
  arith, ltb, if◌then◌else◌, Bool-cases, Option-cases, Outcome, ok, err, panic, stuck,
}
use heplify.Ip4defrag.{Ip4, DefragError, dont_defrag, security_checks}
use heplify.Ip4defrag.FragmentList.{FragmentList, insert}
use heplify.Ip4defrag.Defragmenter.{
  Network, FlowKey, new_ipv4, same_key, Flows, find_flow, put_flow, flush, settle, flow_of,
  defrag_fragment, defrag_checked, defrag_ipv4_with_timestamp,
}

module _ (net : Network) where
  pub same_key_iff : (a b : FlowKey net) → (same_key net a b ≡ true) ↔ (a ≡ b)
  same_key_iff a b = (
    λ e. ground (arith, (net.same_iff a.ip4 b.ip4).0),
    λ e. ground (arith, (net.same_iff a.ip4 b.ip4).1),
  )

  pub same_key_refl : (a : FlowKey net) → same_key net a a ≡ true
  same_key_refl a = (same_key_iff a a).1 refl

  -- Two keys that are one give the same answers.
  pub same_key_congr :
      (a b c : FlowKey net) → same_key net a b ≡ true → same_key net a c ≡ same_key net b c
  same_key_congr a b c e = ap (λ k. same_key net k c) ((same_key_iff a b).0 e)

  pub find_flow-put_flow :
      (k j : FlowKey net) (fl : FragmentList) (d : Flows net)
      → find_flow net j (put_flow net k fl d)
        ≡ (if same_key net k j then some fl else find_flow net j d)
  unfolding find_flow put_flow
  find_flow-put_flow k j fl [] = refl
  find_flow-put_flow k j fl ((i, gl) ∷ d) = elim (Bool-cases (same_key net i k)) [
    | inl same ↦ rw (same, same_key_congr i k j same) (twice_tested (same_key net k j))
    | inr other ↦
        rw (other, find_flow-put_flow k j fl d)
          (swapped (same_key net i j) (same_key net k j) (λ ij kj.
            cc (other, same_key_congr i j k ij, same_key_congr k j k kj, same_key_refl k)))
  ]
    where
      twice_tested :
          (b : Bool)
          → (if b then some fl else find_flow net j d)
            ≡ (if b then some fl else (if b then some gl else find_flow net j d))
      twice_tested true = refl
      twice_tested false = refl

      swapped :
          (a b : Bool)
          → (a ≡ true → b ≡ true → ⊥)
          → (if a then some gl else (if b then some fl else find_flow net j d))
            ≡ (if b then some fl else (if a then some gl else find_flow net j d))
      swapped true true h = absurd (h refl refl)
      swapped true false h = refl
      swapped false true h = refl
      swapped false false h = refl

  settle_other :
      (k j : FlowKey net) (fl : FragmentList) (d : Flows net) (r : Outcome DefragError (Option Ip4))
      → same_key net k j ≡ false
      → find_flow net j (settle net k fl d r).0 ≡ find_flow net j d
  unfolding settle flush
  settle_other k j fl d (ok (some out)) other = rw (find_flow-put_flow, other)
  settle_other k j fl d panic other = refl
  settle_other k j fl d stuck other = refl
  settle_other k j fl d (ok none) other = elim (Bool-cases (ltb 8192 (length fl.list + 1))) [
    | inl full ↦ rw full (rw (find_flow-put_flow, other))
    | inr room ↦ rw room
  ]
  settle_other k j fl d (err e) other = elim (Bool-cases (ltb 8192 (length fl.list + 1))) [
    | inl full ↦ rw full (rw (find_flow-put_flow, other))
    | inr room ↦ rw room
  ]

  -- A packet changes no flow but its own.
  defrag_ipv4_with_timestamp_other :
      (d : Flows net) (ip : Ip4) (t : ℕ) (j : FlowKey net)
      → same_key net (new_ipv4 net ip) j ≡ false
      → find_flow net j (defrag_ipv4_with_timestamp net d ip t).0 ≡ find_flow net j d
  unfolding defrag_ipv4_with_timestamp defrag_checked defrag_fragment
  defrag_ipv4_with_timestamp_other d ip t j other =
      let k = new_ipv4 net ip in
      let r = insert (flow_of net (find_flow net k d)) ip t in
      elim (Bool-cases (dont_defrag ip)) [
        | inl whole ↦ rw whole
        | inr part ↦ rw part (
            checked (security_checks ip) (
              settle_other k j r.0 (put_flow net k r.0 d) r.1 other
              ∙ rw (find_flow-put_flow k j r.0 d, other)))
      ]
    where
      checked :
          (e : Option DefragError)
          → find_flow net j (defrag_fragment net d ip t).0 ≡ find_flow net j d
          → find_flow net j (defrag_checked net e d ip t).0 ≡ find_flow net j d
      checked none h = h
      checked (some e) h = refl

  settle_same_answer :
      (k : FlowKey net) (fl : FragmentList) (d e : Flows net) (r : Outcome DefragError (Option Ip4))
      → (settle net k fl d r).1 ≡ (settle net k fl e r).1
  unfolding settle
  settle_same_answer k fl d e (ok (some out)) = refl
  settle_same_answer k fl d e panic = refl
  settle_same_answer k fl d e stuck = refl
  settle_same_answer k fl d e (ok none) = ground arith
  settle_same_answer k fl d e (err x) = ground arith

  find_flow-put_self :
      (k : FlowKey net) (fl : FragmentList) (d : Flows net)
      → find_flow net k (put_flow net k fl d) ≡ some fl
  find_flow-put_self k fl d = rw (find_flow-put_flow, same_key_refl k)

  settle_same_flow :
      (k : FlowKey net) (fl : FragmentList) (d e : Flows net) (r : Outcome DefragError (Option Ip4))
      → find_flow net k d ≡ find_flow net k e
      → find_flow net k (settle net k fl d r).0 ≡ find_flow net k (settle net k fl e r).0
  unfolding settle flush
  settle_same_flow k fl d e (ok (some out)) h = simp find_flow-put_self
  settle_same_flow k fl d e panic h = h
  settle_same_flow k fl d e stuck h = h
  settle_same_flow k fl d e (ok none) h = elim (Bool-cases (ltb 8192 (length fl.list + 1))) [
    | inl full ↦ rw full (simp find_flow-put_self)
    | inr room ↦ rw room h
  ]
  settle_same_flow k fl d e (err x) h = elim (Bool-cases (ltb 8192 (length fl.list + 1))) [
    | inl full ↦ rw full (simp find_flow-put_self)
    | inr room ↦ rw room h
  ]

  -- Where two defragmenters agree on a packet's flow, they give the same answer, and agree on
  -- the flow afterwards.
  pub defrag_ipv4_with_timestamp_same :
      (d e : Flows net) (ip : Ip4) (t : ℕ)
      → find_flow net (new_ipv4 net ip) d ≡ find_flow net (new_ipv4 net ip) e
      → ((defrag_ipv4_with_timestamp net d ip t).1 ≡ (defrag_ipv4_with_timestamp net e ip t).1)
        × (find_flow net (new_ipv4 net ip) (defrag_ipv4_with_timestamp net d ip t).0
            ≡ find_flow net (new_ipv4 net ip) (defrag_ipv4_with_timestamp net e ip t).0)
  unfolding defrag_ipv4_with_timestamp defrag_checked defrag_fragment
  defrag_ipv4_with_timestamp_same d e ip t h =
      let k = new_ipv4 net ip in
      let r = insert (flow_of net (find_flow net k e)) ip t in
      elim (Bool-cases (dont_defrag ip)) [
        | inl whole ↦ rw whole (refl, h)
        | inr part ↦ elim (Option-cases (security_checks ip)) [
          | inr (x, bad) ↦ rw (part, bad) (refl, h)
          | inl fine ↦
              rw (part, fine, h)
                (
                  settle_same_answer k r.0 (put_flow net k r.0 d) (put_flow net k r.0 e) r.1,
                  settle_same_flow k r.0 (put_flow net k r.0 d) (put_flow net k r.0 e) r.1
                      (simp find_flow-put_self),
                )
        ]
      ]
