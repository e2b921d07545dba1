-- ===== src/Decoder/Machine/Finds.antt =====
-- decoder/machine.go against decoder/machine.rl: wherever the scanner stands it finds the name of the
-- header, and behind a whole CSeq line it is done.
use heplify.Common.{
  ℕ, zero, suc, ◌<◌, ◌≡◌, refl, sym, ap, ◌∙◌, Bool, true, ◌⊎◌, inl, inr, ◌&&◌, ◌||◌, &&-both,
  ||-either, [], ◌∷◌, ◌++◌, append_assoc, ◌==◌, ==→eq, Bool-cases, arith,
}
use mathlib.Core.Path.{subst}
use heplify.Common.Bytes.{Bytes}
use heplify.Decoder.Machine.Labels.{choose, applies}
use heplify.Decoder.Machine.Scan.{states, select, goto}
use heplify.Decoder.Machine.Grammar.{
  Lang, ◌⨾◌, one, plus, IsEither, IsDigit, lws, hcolon, cseq_name, methods, IsMethod, anything,
  front,
}
use heplify.Decoder.Machine.Walk.{every, every-one_of, walk, walk-append, destination}
use heplify.Decoder.Machine.Invariant.{Done, Done-Done}
use heplify.Decoder.Machine.Reach.{
  Reaches, Moves, Takes, Is, Moves-one, Moves-plus, takes, takes_either,
}
use heplify.Decoder.Machine.Grammar.{cseq_line}
use heplify.Decoder.Machine.Below.{walk-below}
use heplify.Decoder.Machine.Path.{In, digits_6_9, digits_10, Moves-hcolon, Moves-lws}

-- From the state, both letters "CS" lead to state 3.
leads_to_3 : ℕ → ℕ → ℕ → Bool
leads_to_3 n c d = destination (goto (destination (goto n c)) d) == 3

abbrev is_done : ℕ → Bool
is_done n = n == 18 || (n == 71 || n == 0)

unfoldable finds_name : ℕ → Bool
unfolding leads_to_3
finds_name n =
    is_done n
    || (leads_to_3 n 67 83 && leads_to_3 n 67 115) && (leads_to_3 n 99 83 && leads_to_3 n 99 115)

unfoldable every_below : ℕ → (ℕ → Bool) → Bool
every_below zero test = true
every_below (suc n) test = test n && every_below n test

every_below_lem : (m n : ℕ) (test : ℕ → Bool) → every_below m test ≡ true → n < m → test n ≡ true
unfolding every_below
every_below_lem zero n test e h = absurd (omega arith)
every_below_lem (suc m) n test e h =
    let (first, later) = &&-both (test m) (every_below m test) e in
    elim (Bool-cases (n == m)) [
      | inl same ↦ ap test (==→eq n m same) ∙ first
      | inr other ↦ every_below_lem m n test later (ground arith)
    ]

every_find : every_below 72 finds_name ≡ true
unfolding every_below finds_name goto select states choose destination applies
every_find = refl

is_done-Done : (n : ℕ) → is_done n ≡ true → Done n
is_done-Done n e = elim (||-either (n == 18) (n == 71 || n == 0) e) [
  | inl p ↦ inl (==→eq n 18 p)
  | inr p ↦ elim (||-either (n == 71) (n == 0) p) [
    | inl q ↦ inr (inl (==→eq n 71 q))
    | inr q ↦ inr (inr (==→eq n 0 q))
  ]
]

pub Done-walk : (n : ℕ) (w : Bytes) → Done n → Done (walk n w)
unfolding walk
Done-walk n [] d = d
Done-walk n (b ∷ w) d = Done-walk (destination (goto n b)) w (Done-Done n b d)

-- "CS" from any state.
leads-eq : (n c d : ℕ) → leads_to_3 n c d ≡ true → walk n (c ∷ d ∷ []) ≡ 3
unfolding walk leads_to_3
leads-eq n c d e = ==→eq (destination (goto (destination (goto n c)) d)) 3 e

finds_cs :
    (n c d : ℕ) → n < 72 → IsEither 67 99 c → IsEither 83 115 d → Done n ⊎ (walk n (c ∷ d ∷ []) ≡ 3)
unfolding finds_name
finds_cs n c d h p q =
    let upper = leads_to_3 n 67 83 && leads_to_3 n 67 115 in
    let lower = leads_to_3 n 99 83 && leads_to_3 n 99 115 in
    elim (||-either (is_done n) (upper && lower) (every_below_lem 72 n finds_name every_find h)) [
      | inl e ↦ inl (is_done-Done n e)
      | inr e ↦
          let (u, l) = &&-both upper lower e in
          let (a, a') = &&-both (leads_to_3 n 67 83) (leads_to_3 n 67 115) u in
          let (b, b') = &&-both (leads_to_3 n 99 83) (leads_to_3 n 99 115) l in
          inr (
            pick p q (leads-eq n 67 83 a) (leads-eq n 67 115 a') (leads-eq n 99 83 b)
              (leads-eq n 99 115 b'))
    ]
  where
    at : (j k : ℕ) → c ≡ j → d ≡ k → walk n (j ∷ k ∷ []) ≡ 3 → walk n (c ∷ d ∷ []) ≡ 3
    at j k e f w = ap (λ x. walk n (x ∷ d ∷ [])) e ∙ ap (λ x. walk n (j ∷ x ∷ [])) f ∙ w

    pick :
        IsEither 67 99 c
        → IsEither 83 115 d
        → walk n (67 ∷ 83 ∷ []) ≡ 3
        → walk n (67 ∷ 115 ∷ []) ≡ 3
        → walk n (99 ∷ 83 ∷ []) ≡ 3
        → walk n (99 ∷ 115 ∷ []) ≡ 3
        → walk n (c ∷ d ∷ []) ≡ 3
    pick (inl e) (inl f) w x y z = at 67 83 e f w
    pick (inl e) (inr f) w x y z = at 67 115 e f x
    pick (inr e) (inl f) w x y z = at 99 83 e f y
    pick (inr e) (inr f) w x y z = at 99 115 e f z

abbrev name_start : Lang
name_start = one (IsEither 67 99) ⨾ one (IsEither 83 115)

start-Reaches : (u v : Bytes) → name_start v → Reaches (Is 3) (u ++ v)
start-Reaches u v (x, y, e, (c, ec, p), (d, ed, q)) =
    let two = e ∙ ap (λ z. z ++ y) ec ∙ ap (λ z. c ∷ z) ed in
    subst (λ z. Reaches (Is 3) (u ++ z)) (sym two)
      (elim (finds_cs (walk 1 u) c d (walk-below 1 u (omega arith)) p q) [
        | inl h ↦
            inl (
              subst Done (sym (walk-append 1 u (c ∷ d ∷ []))) (Done-walk (walk 1 u) (c ∷ d ∷ []) h))
        | inr h ↦ inr (walk-append 1 u (c ∷ d ∷ []) ∙ h)
      ])

e_3 : Takes (Is 3) (IsEither 69 101) (Is 4)
unfolding goto select states choose destination
e_3 n b q p = takes_either 3 69 101 4 n b refl refl q p

q_4 : Takes (Is 4) (IsEither 81 113) (Is 5)
unfolding goto select states choose destination
q_4 n b q p = takes_either 4 81 113 5 n b refl refl q p

-- Behind any bytes, a word leads on from where its first part leads.
behind-⨾ :
    (Q R : ℕ → Type 0) (L M : Lang)
    → ((u v : Bytes) → L v → Reaches Q (u ++ v))
    → Moves Q M R
    → (u v : Bytes) → (L ⨾ M) v
    → Reaches R (u ++ v)
behind-⨾ Q R L M f g u v (x, y, e, l, m) =
    subst (Reaches R) (append_assoc u x y ∙ ap (λ z. u ++ z) (sym e)) (g (u ++ x) y (f u x l) m)

name-Reaches : (u v : Bytes) → cseq_name v → Reaches (Is 5) (u ++ v)
name-Reaches =
    behind-⨾ (Is 4) (Is 5) (name_start ⨾ one (IsEither 69 101)) (one (IsEither 81 113))
      (behind-⨾ (Is 3) (Is 4) name_start (one (IsEither 69 101)) start-Reaches
        (Moves-one (Is 3) (IsEither 69 101) (Is 4) e_3))
      (Moves-one (Is 4) (IsEither 81 113) (Is 5) q_4)

Reaches-⨾ :
    (Q R : ℕ → Type 0) (L M : Lang)
    → ((w : Bytes) → L w → Reaches Q w)
    → Moves Q M R
    → (w : Bytes) → (L ⨾ M) w
    → Reaches R w
Reaches-⨾ Q R L M f g w (u, v, e, l, m) = subst (Reaches R) (sym e) (g u v (f u l) m)

pub front-Reaches : (w : Bytes) → front w → Reaches (In 11 14) w
front-Reaches =
    Reaches-⨾ (Is 10) (In 11 14) (anything ⨾ cseq_name ⨾ hcolon ⨾ plus IsDigit) lws
      (Reaches-⨾ (In 6 9) (Is 10) (anything ⨾ cseq_name ⨾ hcolon) (plus IsDigit)
        (Reaches-⨾ (Is 5) (In 6 9) (anything ⨾ cseq_name) hcolon
          (λ w (u, v, e, _, n). subst (Reaches (Is 5)) (sym e) (name-Reaches u v n)) Moves-hcolon)
        (Moves-plus (In 6 9) IsDigit (Is 10) digits_6_9 digits_10))
      Moves-lws

spells_17 : Bytes → Bool
spells_17 m = walk 11 m == 17 && walk 14 m == 17

methods-spell : every spells_17 methods ≡ true
unfolding every spells_17 walk goto select states choose destination
methods-spell = refl

Moves-IsMethod : Moves (In 11 14) IsMethod (Is 17)
unfolding spells_17
Moves-IsMethod w v h o =
    let (a, b) =
      &&-both (walk 11 v == 17) (walk 14 v == 17)
        (every-one_of spells_17 methods v methods-spell o) in
    elim h [
      | inl d ↦ inl (subst Done (sym (walk-append 1 w v)) (Done-walk (walk 1 w) v d))
      | inr (inl q) ↦ inr (walk-append 1 w v ∙ ap (λ n. walk n v) q ∙ ==→eq (walk 11 v) 17 a)
      | inr (inr q) ↦ inr (walk-append 1 w v ∙ ap (λ n. walk n v) q ∙ ==→eq (walk 14 v) 17 b)
    ]

cr_17 : Takes (Is 17) (Is 13) Done
unfolding goto select states choose destination
cr_17 n b q p = inl (takes 17 13 18 n b refl q p)

-- Behind a CSeq line and its carriage return the scanner is done, whatever follows.
pub line-Done : (w rest : Bytes) → cseq_line w → Done (walk 1 (w ++ 13 ∷ rest))
unfolding walk
line-Done w rest l =
    subst Done (sym (walk-append 1 w (13 ∷ rest)))
      (elim (Reaches-⨾ (In 11 14) (Is 17) front IsMethod front-Reaches Moves-IsMethod w l) [
        | inl d ↦ Done-walk (walk 1 w) (13 ∷ rest) d
        | inr q ↦ Done-walk (destination (goto (walk 1 w) 13)) rest (cr_17 (walk 1 w) 13 q refl)
      ])
