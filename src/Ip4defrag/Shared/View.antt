-- ===== src/Ip4defrag/Shared/View.antt =====
-- ip4defrag/defrag.go: the flows that shared lists stand for, and what the steps do to them.
use heplify.Common.{
  ℕ, ◌+◌, ◌<◌, ◌≡◌, ◌≢◌, refl, sym, ap, ◌∙◌, true, false, inl, inr, [], ◌∷◌, none, some, ==_of_ne,
  ==_refl, Bool-cases, All, arith,
}
use mathlib.Core.Path.{ap₂, subst}
use heplify.Ip4defrag.FragmentList.{FragmentList, new_fragment_list}
use heplify.Ip4defrag.Defragmenter.{Network, FlowKey, Flows, same_key, find_flow, put_flow, flow_of}
use heplify.Ip4defrag.Flows.{same_key_iff, same_key_refl}
use heplify.Ip4defrag.Shared.{update, Table, Shared, find_ptr, put_ptr}

pub update_self : (store : ℕ → FragmentList) (p : ℕ) (fl : FragmentList) → update store p fl p ≡ fl
update_self store p fl = rw (==_refl p) refl

pub update_other :
    (store : ℕ → FragmentList) (p q : ℕ) (fl : FragmentList) → q ≢ p → update store p fl q ≡ store q
update_other store p q fl ne = rw (==_of_ne p q (λ e. ne (sym e))) refl

module _ (net : Network) where
  -- The map with the lists in place of the pointers.
  unfoldable pub view : (ℕ → FragmentList) → Table net → Flows net
  view store [] = []
  view store ((k, p) ∷ m) = (k, store p) ∷ view store m

  abbrev pub flows : Shared net → Flows net
  flows s = view s.store s.table

  abbrev pub Apart : ℕ → FlowKey net × ℕ → Type 0
  Apart p (k, q) = q ≢ p

  -- The pointers are below the next one, and no two are the same.
  unfoldable pub IsFrom : ℕ → Table net → Type 0
  IsFrom fresh [] = Unit {0}
  IsFrom fresh ((k, p) ∷ m) = (p < fresh) × All (Apart p) m × IsFrom fresh m

  abbrev pub IsWellFormed : Shared net → Type 0
  IsWellFormed s = IsFrom s.fresh s.table

  abbrev pub Same : (ℕ → FragmentList) → (ℕ → FragmentList) → FlowKey net × ℕ → Type 0
  Same store store' (k, p) = store' p ≡ store p

  pub view-Same :
      (store store' : ℕ → FragmentList) (m : Table net)
      → All (Same store store') m
      → view store' m ≡ view store m
  unfolding view
  view-Same store store' [] same = refl
  view-Same store store' ((k, p) ∷ m) (e, same) =
      ap₂ (λ (fl : FragmentList) (d : Flows net). (k, fl) ∷ d) e (view-Same store store' m same)

  pub Apart-Same :
      (store : ℕ → FragmentList) (p : ℕ) (fl : FragmentList) (m : Table net)
      → All (Apart p) m
      → All (Same store (update store p fl)) m
  Apart-Same store p fl [] apart = tt
  Apart-Same store p fl ((k, q) ∷ m) (ne, apart) =
      (update_other store p q fl ne, Apart-Same store p fl m apart)

  pub IsFrom-Apart : (fresh : ℕ) (m : Table net) → IsFrom fresh m → All (Apart fresh) m
  unfolding IsFrom
  IsFrom-Apart fresh [] from = tt
  IsFrom-Apart fresh ((k, q) ∷ m) (lt, _, from) = (λ e. omega arith, IsFrom-Apart fresh m from)

  -- The pointer that was found is that of the list that is found.
  pub find_flow-view :
      (k : FlowKey net) (store : ℕ → FragmentList) (m : Table net)
      → flow_of net (find_flow net k (view store m))
        ≡ elim (find_ptr net k m) [ none ↦ new_fragment_list | some p ↦ store p ]
  unfolding find_flow find_ptr view
  find_flow-view k store [] = refl
  find_flow-view k store ((j, p) ∷ m) = elim (Bool-cases (same_key net j k)) [
    | inl e ↦ rw e refl
    | inr e ↦ rw e (find_flow-view k store m)
  ]

  pub find_ptr-first :
      (k j : FlowKey net) (p : ℕ) (m : Table net)
      → same_key net j k ≡ true
      → find_ptr net k ((j, p) ∷ m) ≡ some p
  unfolding find_ptr
  find_ptr-first k j p m e = rw e refl

  pub find_ptr-later :
      (k j : FlowKey net) (p : ℕ) (m : Table net)
      → same_key net j k ≡ false
      → find_ptr net k ((j, p) ∷ m) ≡ find_ptr net k m
  unfolding find_ptr
  find_ptr-later k j p m e = rw e refl

  pub find_ptr-All :
      (k : FlowKey net) (p q : ℕ) (m : Table net)
      → find_ptr net k m ≡ some p
      → All (Apart q) m
      → p ≢ q
  unfolding find_ptr
  find_ptr-All k p q [] e apart = cc
  find_ptr-All k p q ((j, r) ∷ m) e (ne, apart) = elim (Bool-cases (same_key net j k)) [
    | inl s ↦ let first = find_ptr-first k j r m s in λ h. ne (cc)
    | inr s ↦ find_ptr-All k p q m (sym (find_ptr-later k j r m s) ∙ e) apart
  ]

  pub view-put_ptr :
      (k : FlowKey net) (q : ℕ) (store store' : ℕ → FragmentList) (m : Table net)
      → All (Same store store') m
      → view store' (put_ptr net k q m) ≡ put_flow net k (store' q) (view store m)
  unfolding view put_ptr put_flow
  view-put_ptr k q store store' [] same = refl
  view-put_ptr k q store store' ((j, p) ∷ m) (e, same) = elim (Bool-cases (same_key net j k)) [
    | inl s ↦ rw s (ap ((k, store' q) ∷◌) (view-Same store store' m same))
    | inr s ↦ rw s (
        ap₂ (λ (fl : FragmentList) (d : Flows net). (j, fl) ∷ d) e
          (view-put_ptr k q store store' m same))
  ]

  pub view-update :
      (k : FlowKey net) (p fresh : ℕ) (fl : FragmentList) (store : ℕ → FragmentList) (m : Table net)
      → IsFrom fresh m
      → find_ptr net k m ≡ some p
      → view (update store p fl) m ≡ put_flow net k fl (view store m)
  unfolding view put_flow find_ptr IsFrom
  view-update k p fresh fl store [] from e = cc
  view-update k p fresh fl store ((j, q) ∷ m) (lt, apart, from) e =
      elim (Bool-cases (same_key net j k)) [
        | inl s ↦
            let first = find_ptr-first k j q m s in
            let here : q ≡ p = cc in
            let named : j ≡ k = (same_key_iff net j k).0 s in
            rw (s, here)
              (ap₂ (λ (h : FlowKey net × FragmentList) (d : Flows net). h ∷ d)
                (ap₂ (λ (i : FlowKey net) (g : FragmentList). (i, g)) named
                  (update_self store p fl))
                (view-Same store (update store p fl) m
                  (Apart-Same store p fl m (subst (λ r. All (Apart r) m) here apart))))
        | inr s ↦
            let later = sym (find_ptr-later k j q m s) ∙ e in
            let ne : p ≢ q = find_ptr-All k p q m later apart in
            rw s (
              ap₂ (λ (g : FragmentList) (d : Flows net). (j, g) ∷ d)
                (update_other store p q fl (λ h. ne (sym h)))
                (view-update k p fresh fl store m from later))
      ]

  pub find_ptr-put_ptr :
      (k : FlowKey net) (p : ℕ) (m : Table net) → find_ptr net k (put_ptr net k p m) ≡ some p
  unfolding find_ptr put_ptr
  find_ptr-put_ptr k p [] = rw (same_key_refl net k) refl
  find_ptr-put_ptr k p ((j, q) ∷ m) = elim (Bool-cases (same_key net j k)) [
    | inl s ↦ rw (s, same_key_refl net k) refl
    | inr s ↦ rw (s, s) (find_ptr-put_ptr k p m)
  ]

  pub put_flow-put_flow :
      (k : FlowKey net) (fl gl : FragmentList) (d : Flows net)
      → put_flow net k fl (put_flow net k gl d) ≡ put_flow net k fl d
  unfolding put_flow
  put_flow-put_flow k fl gl [] = rw (same_key_refl net k) refl
  put_flow-put_flow k fl gl ((j, hl) ∷ d) = elim (Bool-cases (same_key net j k)) [
    | inl s ↦ rw (s, same_key_refl net k) refl
    | inr s ↦ rw (s, s) (ap ((j, hl) ∷◌) (put_flow-put_flow k fl gl d))
  ]

  pub Apart-put_ptr :
      (k : FlowKey net) (p q : ℕ) (m : Table net)
      → q ≢ p
      → All (Apart p) m
      → All (Apart p) (put_ptr net k q m)
  unfolding put_ptr
  Apart-put_ptr k p q [] ne apart = (ne, tt)
  Apart-put_ptr k p q ((j, r) ∷ m) ne (ne', apart) = elim (Bool-cases (same_key net j k)) [
    | inl s ↦ rw s (ne, apart)
    | inr s ↦ rw s (ne', Apart-put_ptr k p q m ne apart)
  ]

  pub IsFrom-weaken : (fresh : ℕ) (m : Table net) → IsFrom fresh m → IsFrom (fresh + 1) m
  unfolding IsFrom
  IsFrom-weaken fresh [] from = tt
  IsFrom-weaken fresh ((j, p) ∷ m) (lt, apart, from) =
      (omega arith, apart, IsFrom-weaken fresh m from)

  pub IsFrom-put_ptr :
      (k : FlowKey net) (fresh : ℕ) (m : Table net)
      → IsFrom fresh m
      → IsFrom (fresh + 1) (put_ptr net k fresh m)
  unfolding IsFrom put_ptr
  IsFrom-put_ptr k fresh [] from = (omega arith, tt, tt)
  IsFrom-put_ptr k fresh ((j, p) ∷ m) (lt, apart, from) = elim (Bool-cases (same_key net j k)) [
    | inl s ↦ rw s (omega arith, IsFrom-Apart fresh m from, IsFrom-weaken fresh m from)
    | inr s ↦ rw s (
      omega arith,
      Apart-put_ptr k p fresh m (λ e. omega arith) apart,
      IsFrom-put_ptr k fresh m from,
    )
  ]
