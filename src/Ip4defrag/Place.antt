-- ===== src/Ip4defrag/Place.antt =====
-- ip4defrag/defrag.go: where `insert` puts a fragment that overlaps no other.
use heplify.Common.{
  ℕ, ◌+◌, ◌≤◌, ◌<◌, ◌≡◌, ◌≢◌, ◌⊎◌, inl, inr, refl, List, [], ◌∷◌, ◌++◌, some, none, length, arith,
  All, ltb, leb, ◌==◌, if◌then◌else◌, Bool-cases, ==_of_eq, lt→ltb, le→ltb, ltb→lt, not_ltb→le,
}
use heplify.Common.Bytes.{Bytes}
use heplify.Ip4defrag.{Ip4}
use heplify.Ip4defrag.FragmentList.{FragmentList, offset, place, placed_in}
use heplify.Ip4defrag.Datagram.{
  IsFragment, IsDatagram, IsChain, IsPartial, Apart, start, stop, last_stop, total, le-last_stop,
}
use heplify.Ip4defrag.Build.{offset-start}

-- `g` repeats the entry `e`, or overlaps it nowhere.
abbrev pub Agrees : Ip4 → Ip4 → Type 0
Agrees g e = (g.frag_offset ≡ e.frag_offset) ⊎ Apart g e

-- `new` is `old` with `g` in its place.
pub record IsPlaced (d : Bytes) (p : ℕ) (old : List Ip4) (g : Ip4) (new : List Ip4) : Type 0 where
  pub chain : IsChain d p new
  pub total_is : total new ≡ length g.payload + total old
  pub last_is :
      last_stop p new ≡ (if ltb (last_stop p old) (stop g) then stop g else last_stop p old)
  pub keeps : (h : Ip4) → Apart h g → All (Apart h) old → All (Apart h) new

later :
    (g e : Ip4)
    → 0 < length e.payload
    → Agrees g e
    → (g.frag_offset ≡ e.frag_offset → ⊥)
    → start g < start e
    → stop g ≤ start e
later g e size (inl same) ne lt = absurd (ne same)
later g e size (inr (inl fits)) ne lt = fits
later g e size (inr (inr behind)) ne lt = absurd (omega arith)

earlier :
    (g e : Ip4)
    → 0 < length g.payload
    → Agrees g e
    → (g.frag_offset ≡ e.frag_offset → ⊥)
    → start e ≤ start g
    → stop e ≤ start g
earlier g e size (inl same) ne le = absurd (ne same)
earlier g e size (inr (inr behind)) ne le = behind
earlier g e size (inr (inl fits)) ne le = absurd (omega arith)

module _ (d : Bytes) (g : Ip4) (i : IsFragment d g) where
  -- In front of an entry with a larger offset.
  IsPlaced-before :
      (p : ℕ) (e : Ip4) (es : List Ip4)
      → IsChain d p (e ∷ es)
      → p ≤ start g
      → stop g ≤ start e
      → IsPlaced d p (e ∷ es) g (g ∷ e ∷ es)
  IsPlaced-before p e es (ie, lo, c) low fits = record {
    chain = (i, low, (ie, fits, c));
    total_is = omega arith;
    last_is =
        rw (le→ltb (last_stop (stop e) es) (stop g) (omega (arith, le-last_stop d (stop e) es c)));
    keeps = λ h ag all. (ag, all);
  }

  IsPlaced-behind :
      (p : ℕ) (e : Ip4) (es new : List Ip4)
      → IsChain d p (e ∷ es)
      → IsPlaced d (stop e) es g new
      → IsPlaced d p (e ∷ es) g (e ∷ new)
  IsPlaced-behind p e es new (ie, lo, c) r = record {
    chain = (ie, lo, r.chain);
    total_is = omega (arith, r.total_is);
    last_is = r.last_is;
    keeps = λ h ag all. (all.0, r.keeps h ag all.1);
  }

  -- The loop finds the duplicate or the place, since an entry behind ends after the fragment's start.
  place_finds :
      (p : ℕ) (es : List Ip4)
      → IsChain d p es
      → p ≤ start g
      → start g < last_stop p es
      → All (Agrees g) es
      → (place g es ≡ none) ⊎ ((new : List Ip4) × (place g es ≡ some new) × IsPlaced d p es g new)
  unfolding place
  place_finds p [] c low high agree = absurd (omega arith)
  place_finds p (e ∷ es) (ie, lo, c) low high (ag, agree) =
      elim (Bool-cases (g.frag_offset == e.frag_offset)) [
        | inl same ↦ inl (rw same)
        | inr other ↦
            let ne : g.frag_offset ≡ e.frag_offset → ⊥ =
              λ q. cc (other, ==_of_eq g.frag_offset e.frag_offset q) in
            elim (Bool-cases (ltb g.frag_offset e.frag_offset)) [
              | inl before ↦ inr (
                g ∷ e ∷ es,
                rw (other, before),
                IsPlaced-before p e es (ie, lo, c) low
                    (later g e ie.nonempty ag ne
                      (omega (arith, ltb→lt g.frag_offset e.frag_offset before))),
              )
              | inr behind ↦
                  let here : stop e ≤ start g =
                    earlier g e i.nonempty ag ne
                      (omega (arith, not_ltb→le g.frag_offset e.frag_offset behind)) in
                  elim (place_finds (stop e) es c here high agree) [
                    | inl dup ↦ inl (rw (other, behind, dup))
                    | inr (new, at, r) ↦
                        inr (
                          e ∷ new,
                          rw (other, behind, at),
                          IsPlaced-behind p e es new (ie, lo, c) r,
                        )
                  ]
            ]
      ]

  IsPlaced-last :
      (p : ℕ) (es : List Ip4)
      → IsChain d p es
      → last_stop p es ≤ start g
      → IsPlaced d p es g (es ++ g ∷ [])
  IsPlaced-last p [] c low = record {
    chain = (i, low, tt);
    total_is = refl;
    last_is = rw (lt→ltb p (stop g) (omega (arith, i.nonempty)));
    keeps = λ h ag all. (ag, tt);
  }
  IsPlaced-last p (e ∷ es) c low =
      IsPlaced-behind p e es (es ++ g ∷ []) c (IsPlaced-last (stop e) es c.2 low)

  -- A fragment of the datagram is dropped as a duplicate, or takes its place.
  pub placed_in_cases :
      (fl : FragmentList)
      → IsDatagram d
      → IsPartial d fl
      → All (Agrees g) fl.list
      → (placed_in fl g ≡ none)
        ⊎ ((new : List Ip4) × (placed_in fl g ≡ some new) × IsPlaced d 0 fl.list g new)
  unfolding placed_in
  placed_in_cases fl size s agree = elim (Bool-cases (leb fl.highest (offset g))) [
    | inl back ↦ inr (
      fl.list ++ g ∷ [],
      rw back,
      IsPlaced-last 0 fl.list s.chain (ground (arith, offset-start d g size i, s.highest)),
    )
    | inr inside ↦
        let high : start g < last_stop 0 fl.list =
          ground (arith, offset-start d g size i, s.highest) in
        elim (place_finds 0 fl.list s.chain (omega arith) high agree) [
          | inl dup ↦ inl (rw (inside, dup))
          | inr (new, at, r) ↦ inr (new, rw (inside, at), r)
        ]
  ]

  -- A fragment that is apart from all others is no duplicate.
  place-ne-none :
      (p : ℕ) (es : List Ip4) → IsChain d p es → All (Apart g) es → place g es ≡ none → ⊥
  unfolding place
  place-ne-none p [] c apart none_of = cc
  place-ne-none p (e ∷ es) (ie, lo, c) (ag, apart) none_of =
      ground (arith, i.nonempty, ie.nonempty, place-ne-none (stop e) es c apart)

  pub placed_in-ne-none :
      (fl : FragmentList) → IsPartial d fl → All (Apart g) fl.list → placed_in fl g ≢ none
  unfolding placed_in
  placed_in-ne-none fl s apart = ground (arith, place-ne-none 0 fl.list s.chain apart)
