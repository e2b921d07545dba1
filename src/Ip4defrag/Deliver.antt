-- ===== src/Ip4defrag/Deliver.antt =====
-- ip4defrag/defrag.go: the fragments of a datagram, inserted in any order.
use heplify.Common.{
  ℕ, ◌+◌, ◌<◌, ◌≡◌, ◌≢◌, inl, inr, refl, sym, ap, ◌∙◌, List, [], ◌∷◌, Option, some, none, length,
  arith, All, ok,
}
use mathlib.Core.Path.{subst}
use heplify.Common.Bytes.{Bytes}
use heplify.Ip4defrag.{Ip4}
use heplify.Ip4defrag.FragmentList.{
  FragmentList, new_fragment_list, count_fragment, try_build, insert_at, insert, rebuilt,
}
use heplify.Ip4defrag.Datagram.{IsFragment, IsDatagram, IsPartial, Apart, total}
use heplify.Ip4defrag.Place.{Agrees, IsPlaced, placed_in_cases, placed_in-ne-none}
use heplify.Ip4defrag.Insert.{
  count_fragment-list, new_fragment_list-IsPartial, count_fragment-IsPartial, try_build_complete,
  try_build_incomplete, highest_within, current-le-highest,
}

-- Fragments arrive one after the other, each at its time, until a packet comes out: the packet,
-- and the fragments still to come.
unfoldable pub deliver : (Ip4 → ℕ) → FragmentList → List Ip4 → Option (Ip4 × List Ip4)
deliver time fl [] = none
deliver time fl (g ∷ gs) = elim (insert fl g (time g)).1 [
  | ok none ↦ deliver time (insert fl g (time g)).0 gs
  | ok (some out) ↦ some (out, gs)
  | _ ↦ none
]

deliver_stops :
    (time : Ip4 → ℕ) (fl : FragmentList) (g : Ip4) (gs : List Ip4) (fl' : FragmentList) (out : Ip4)
    → insert fl g (time g) ≡ (fl', ok (some out))
    → deliver time fl (g ∷ gs) ≡ some (out, gs)
unfolding deliver
deliver_stops time fl g gs fl' out e = rw (e, deliver)

deliver_goes_on :
    (time : Ip4 → ℕ) (fl : FragmentList) (g : Ip4) (gs : List Ip4) (fl' : FragmentList)
    → insert fl g (time g) ≡ (fl', ok none)
    → deliver time fl (g ∷ gs) ≡ deliver time fl' gs
unfolding deliver
deliver_goes_on time fl g gs fl' e = rw (e, deliver) (ap (λ r. deliver time r.0 gs) e)

abbrev pub AllApart : List Ip4 → Type 0
AllApart [] = Unit
AllApart (g ∷ gs) = All (Apart g) gs × AllApart gs

-- The fragments that a datagram was cut into, in any order.
pub record IsCut (d : Bytes) (gs : List Ip4) : Type 0 where
  pub fragments : All (IsFragment d) gs
  pub apart : AllApart gs
  pub covers : total gs ≡ length d

All-Agrees : (g : Ip4) (es : List Ip4) → All (Apart g) es → All (Agrees g) es
All-Agrees g [] apart = tt
All-Agrees g (e ∷ es) (a, apart) = (inr a, All-Agrees g es apart)

Apart-symm : (g h : Ip4) → Apart g h → Apart h g
Apart-symm g h (inl a) = inr a
Apart-symm g h (inr a) = inl a

-- What stays apart from the list stays so when `g` takes its place.
All-kept :
    (d : Bytes) (old : List Ip4) (g : Ip4) (new gs : List Ip4)
    → IsPlaced d 0 old g new
    → All (Apart g) gs
    → All (λ h. All (Apart h) old) gs
    → All (λ h. All (Apart h) new) gs
All-kept d old g new [] r ag all = tt
All-kept d old g new (h ∷ gs) r (a, ag) (o, all) =
    (r.keeps h (Apart-symm g h a) o, All-kept d old g new gs r ag all)

All-new : (gs : List Ip4) → All (λ h. All (Apart h) new_fragment_list.list) gs
All-new [] = tt
All-new (g ∷ gs) = (tt, All-new gs)

module _ (d : Bytes) (size : IsDatagram d) (time : Ip4 → ℕ) where
  -- A fragment apart from the rest of the list is placed.
  insert-Apart :
      (fl : FragmentList) (g : Ip4)
      → IsPartial d fl
      → IsFragment d g
      → All (Apart g) fl.list
      → (new : List Ip4) × (insert fl g (time g)
          ≡ (count_fragment fl g new (time g), try_build (count_fragment fl g new (time g)) g))
        × IsPlaced d 0 fl.list g new
  unfolding insert insert_at
  insert-Apart fl g s i apart =
      elim (placed_in_cases d g i fl size s (All-Agrees g fl.list apart)) [
        | inl dup ↦ absurd (placed_in-ne-none d g i fl s apart dup)
        | inr (new, at, r) ↦ (new, rw at, r)
      ]

  deliver_complete :
      (gs : List Ip4) (fl : FragmentList)
      → IsPartial d fl
      → All (IsFragment d) gs
      → AllApart gs
      → All (λ h. All (Apart h) fl.list) gs
      → total fl.list + total gs ≡ length d
      → 0 < total gs
      → (out : Ip4) × (deliver time fl gs ≡ some (out, []))
        × (out.payload ≡ d)
        × (out.length ≡ length d)
  deliver_complete [] fl s is apart olds sum more = absurd (omega arith)
  deliver_complete (g ∷ []) fl s (i, is) apart (old, olds) sum more =
      let (new, e, r) = insert-Apart fl g s i old in
      let fl' = count_fragment fl g new (time g) in
      let s' : IsPartial d fl' = count_fragment-IsPartial d size fl g new (time g) s i r in
      let full : fl'.current ≡ length d =
        omega
          (arith, s'.current, ap total (count_fragment-list fl g new (time g)), r.total_is, sum) in
      (
        rebuilt fl' g d,
        deliver_stops time fl g [] fl' (rebuilt fl' g d)
            (e ∙ ap (λ r. (fl', r)) (try_build_complete d size fl' g s' full)),
        refl,
        omega (arith, highest_within d size fl' s', current-le-highest d size fl' s'),
      )
  deliver_complete (g ∷ h ∷ gs) fl s (i, is) (apart, aparts) (old, olds) sum more =
      let (new, e, r) = insert-Apart fl g s i old in
      let fl' = count_fragment fl g new (time g) in
      let s' : IsPartial d fl' = count_fragment-IsPartial d size fl g new (time g) s i r in
      let short : fl'.current ≢ length d = omega (
        arith,
        s'.current,
        ap total (count_fragment-list fl g new (time g)),
        r.total_is,
        sum,
        is.0.nonempty,
      ) in
      rw
        (deliver_goes_on time fl g (h ∷ gs) fl'
          (e ∙ ap (λ r. (fl', r)) (try_build_incomplete d size fl' g s' short)))
        (deliver_complete (h ∷ gs) fl' s' is aparts
          (subst (λ l. All (λ k. All (Apart k) l) (h ∷ gs))
            (sym (count_fragment-list fl g new (time g)))
            (All-kept d fl.list g new (h ∷ gs) r apart olds))
          (omega (arith, ap total (count_fragment-list fl g new (time g)), r.total_is, sum))
          (omega (arith, is.0.nonempty)))

-- Whatever the order in which they arrive, the fragments of a datagram give the datagram with
-- the last of them, and nothing before it.
pub deliver-IsCut :
    (d : Bytes) (time : Ip4 → ℕ) (gs : List Ip4)
    → IsDatagram d
    → IsCut d gs
    → (out : Ip4) × (deliver time new_fragment_list gs ≡ some (out, []))
      × (out.payload ≡ d)
      × (out.length ≡ length d)
deliver-IsCut d time gs size cut =
    deliver_complete d size time gs new_fragment_list (new_fragment_list-IsPartial d size)
      cut.fragments cut.apart (All-new gs) (omega (arith, cut.covers)) (omega (arith, cut.covers))
