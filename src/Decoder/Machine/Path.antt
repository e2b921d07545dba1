-- ===== src/Decoder/Machine/Path.antt =====
-- decoder/machine.go against decoder/machine.rl: from any state the name, the number and the white
-- space of a CSeq header lead to the state in front of its method.
use heplify.Common.{ℕ, ◌≡◌, refl, ap, ◌∙◌, ◌⊎◌, inl, inr, arith}
use heplify.Decoder.Machine.Labels.{choose, applies}
use heplify.Decoder.Machine.Scan.{states, select, goto}
use heplify.Decoder.Machine.Grammar.{
  ◌⨾◌, one, many, plus, opt, IsWsp, IsDigit, crlf, lws, sws, hcolon,
}
use heplify.Decoder.Machine.Walk.{destination}
use heplify.Decoder.Machine.Reach.{
  Moves, Takes, Is, Moves-one, Moves-many, Moves-⨾, Moves-plus, Moves-opt, Moves-or, takes,
  takes_either,
}

digit_takes_6 : (b : ℕ) → IsDigit b → destination (goto 6 b) ≡ 10
unfolding goto select states choose destination applies
digit_takes_6 b (p, q) = ground arith

digit_takes_9 : (b : ℕ) → IsDigit b → destination (goto 9 b) ≡ 10
unfolding goto select states choose destination applies
digit_takes_9 b (p, q) = ground arith

digit_takes_10 : (b : ℕ) → IsDigit b → destination (goto 10 b) ≡ 10
unfolding goto select states choose destination applies
digit_takes_10 b (p, q) = ground arith

abbrev pub In : ℕ → ℕ → ℕ → Type 0
In m n k = (k ≡ m) ⊎ (k ≡ n)

IsWsp-Takes_5 : Takes (Is 5) IsWsp (Is 5)
unfolding goto select states choose destination
IsWsp-Takes_5 n b q p = takes_either 5 9 32 5 n b refl refl q p

IsWsp-Takes_6 : Takes (Is 6) IsWsp (Is 6)
unfolding goto select states choose destination
IsWsp-Takes_6 n b q p = takes_either 6 9 32 6 n b refl refl q p

IsWsp-Takes_6_8 : Takes (In 6 8) IsWsp (In 6 9)
unfolding goto select states choose destination
IsWsp-Takes_6_8 n b (inl q) p = inl (takes_either 6 9 32 6 n b refl refl q p)
IsWsp-Takes_6_8 n b (inr q) p = inr (takes_either 8 9 32 9 n b refl refl q p)

IsWsp-Takes_6_9 : Takes (In 6 9) IsWsp (In 6 9)
unfolding goto select states choose destination
IsWsp-Takes_6_9 n b (inl q) p = inl (takes_either 6 9 32 6 n b refl refl q p)
IsWsp-Takes_6_9 n b (inr q) p = inr (takes_either 9 9 32 9 n b refl refl q p)

IsWsp-Takes_10_11 : Takes (In 10 11) IsWsp (In 10 11)
unfolding goto select states choose destination
IsWsp-Takes_10_11 n b (inl q) p = inr (takes_either 10 9 32 11 n b refl refl q p)
IsWsp-Takes_10_11 n b (inr q) p = inr (takes_either 11 9 32 11 n b refl refl q p)

IsWsp-Takes_10_13 : Takes (In 10 13) IsWsp (In 11 14)
unfolding goto select states choose destination
IsWsp-Takes_10_13 n b (inl q) p = inl (takes_either 10 9 32 11 n b refl refl q p)
IsWsp-Takes_10_13 n b (inr q) p = inr (takes_either 13 9 32 14 n b refl refl q p)

IsWsp-Takes_11_14 : Takes (In 11 14) IsWsp (In 11 14)
unfolding goto select states choose destination
IsWsp-Takes_11_14 n b (inl q) p = inl (takes_either 11 9 32 11 n b refl refl q p)
IsWsp-Takes_11_14 n b (inr q) p = inr (takes_either 14 9 32 14 n b refl refl q p)

colon_5 : Takes (Is 5) (Is 58) (Is 6)
unfolding goto select states choose destination
colon_5 n b q p = takes 5 58 6 n b refl q p

cr_6 : Takes (Is 6) (Is 13) (Is 7)
unfolding goto select states choose destination
cr_6 n b q p = takes 6 13 7 n b refl q p

lf_7 : Takes (Is 7) (Is 10) (Is 8)
unfolding goto select states choose destination
lf_7 n b q p = takes 7 10 8 n b refl q p

cr_10_11 : Takes (In 10 11) (Is 13) (Is 12)
unfolding goto select states choose destination
cr_10_11 n b (inl q) p = takes 10 13 12 n b refl q p
cr_10_11 n b (inr q) p = takes 11 13 12 n b refl q p

lf_12 : Takes (Is 12) (Is 10) (Is 13)
unfolding goto select states choose destination
lf_12 n b q p = takes 12 10 13 n b refl q p

pub digits_6_9 : Takes (In 6 9) IsDigit (Is 10)
digits_6_9 n b (inl q) p = ap (λ x. destination (goto x b)) q ∙ digit_takes_6 b p
digits_6_9 n b (inr q) p = ap (λ x. destination (goto x b)) q ∙ digit_takes_9 b p

pub digits_10 : Takes (Is 10) IsDigit (Is 10)
digits_10 n b q p = ap (λ x. destination (goto x b)) q ∙ digit_takes_10 b p

Moves-crlf :
    (Q : ℕ → Type 0) (m n : ℕ)
    → Takes Q (Is 13) (Is m)
    → Takes (Is m) (Is 10) (Is n)
    → Moves Q crlf (Is n)
Moves-crlf Q m n f g =
    Moves-⨾ Q (Is m) (Is n) (one (Is 13)) (one (Is 10)) (Moves-one Q (Is 13) (Is m) f)
      (Moves-one (Is m) (Is 10) (Is n) g)

-- White space over a line break, and white space in general.
Moves-fold_6 : Moves (Is 6) (many IsWsp ⨾ crlf) (Is 8)
Moves-fold_6 =
    Moves-⨾ (Is 6) (Is 6) (Is 8) (many IsWsp) crlf (Moves-many (Is 6) IsWsp IsWsp-Takes_6)
      (Moves-crlf (Is 6) 7 8 cr_6 lf_7)

Moves-fold_10 : Moves (In 10 11) (many IsWsp ⨾ crlf) (Is 13)
Moves-fold_10 =
    Moves-⨾ (In 10 11) (In 10 11) (Is 13) (many IsWsp) crlf
      (Moves-many (In 10 11) IsWsp IsWsp-Takes_10_11) (Moves-crlf (In 10 11) 12 13 cr_10_11 lf_12)

Moves-sws : Moves (Is 6) sws (In 6 9)
Moves-sws =
    Moves-opt (Is 6) (In 6 9) lws (λ n q. inl q)
      (Moves-⨾ (Is 6) (In 6 8) (In 6 9) (opt (many IsWsp ⨾ crlf)) (plus IsWsp)
        (Moves-opt (Is 6) (In 6 8) (many IsWsp ⨾ crlf) (λ n q. inl q)
          (Moves-or (Is 6) (Is 8) (In 6 8) (many IsWsp ⨾ crlf) (λ n q. inr q) Moves-fold_6))
        (Moves-plus (In 6 8) IsWsp (In 6 9) IsWsp-Takes_6_8 IsWsp-Takes_6_9))

pub Moves-lws : Moves (Is 10) lws (In 11 14)
Moves-lws =
    Moves-⨾ (Is 10) (In 10 13) (In 11 14) (opt (many IsWsp ⨾ crlf)) (plus IsWsp)
      (Moves-opt (Is 10) (In 10 13) (many IsWsp ⨾ crlf) (λ n q. inl q)
        λ w v h l. elim (Moves-fold_10 w v (elim h [ inl d ↦ inl d | inr q ↦ inr (inl q) ]) l) [
          | inl d ↦ inl d
          | inr q ↦ inr (inr q)
        ])
      (Moves-plus (In 10 13) IsWsp (In 11 14) IsWsp-Takes_10_13 IsWsp-Takes_11_14)

pub Moves-hcolon : Moves (Is 5) hcolon (In 6 9)
Moves-hcolon =
    Moves-⨾ (Is 5) (Is 6) (In 6 9) (many IsWsp ⨾ one (Is 58)) sws
      (Moves-⨾ (Is 5) (Is 5) (Is 6) (many IsWsp) (one (Is 58))
        (Moves-many (Is 5) IsWsp IsWsp-Takes_5) (Moves-one (Is 5) (Is 58) (Is 6) colon_5))
      Moves-sws
