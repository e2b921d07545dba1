-- ===== src/Decoder/Machine/Spell.antt =====
-- decoder/machine.go, states 15 to 70: where each byte leads from within the letters of a method.
use heplify.Common.{
  ℕ, ◌≡◌, refl, sym, ap, ◌∙◌, Bool, true, false, inl, inr, ◌&&◌, ◌||◌, List, [], ◌∷◌, ◌++◌,
  append_assoc, ◌==◌, ==→eq, &&-both, ||-either,
}
use mathlib.Core.Path.{subst}
use heplify.Common.Bytes.{Bytes, bytes_eq}
use heplify.Decoder.Machine.Labels.{
  Goto, leave, st, marking, parse_method, eob, Case, on, within, choose,
}
use heplify.Decoder.Machine.Scan.{states, select, goto}
use heplify.Decoder.Machine.Grammar.{anything, ◌⨾◌, one, IsEither, methods, one_of, ⨾_one, ⨾_snoc}
use heplify.Decoder.Machine.Walk.{
  every, every-one_of, spelled, all_cuts, method_state, walk, Each, none_left, ◌▸◌, switch_cases,
}
use heplify.Decoder.Machine.Front.Stages.{Front, at_1, at_2, at_3}

unfoldable ends_in_c : Bytes → Bool
ends_in_c [] = false
ends_in_c (b ∷ []) = b == 67
ends_in_c (b ∷ c ∷ t) = ends_in_c (c ∷ t)

ends_in_c-Ends : (t : Bytes) → ends_in_c t ≡ true → (anything ⨾ one (IsEither 67 99)) t
unfolding ends_in_c
ends_in_c-Ends [] e = cc
ends_in_c-Ends (b ∷ []) e = ⨾_one b [] tt (inl (==→eq b 67 e))
ends_in_c-Ends (b ∷ c ∷ t) e =
    let (u, v, e', _, p) = ends_in_c-Ends (c ∷ t) e in (b ∷ u, v, ap (λ x. b ∷ x) e', tt, p)

-- A label behind the letters `t` is one back to the header name, one to the next letter, or the
-- carriage return behind a whole method.
unfoldable label_ok : Bytes → ℕ → Goto → Bool
label_ok t k (st n) =
    n == 2 && (k == 67 || k == 99)
    || n == 3 && (k == 83 || k == 115) && ends_in_c t
    || one_of (t ++ k ∷ []) spelled && n == method_state (t ++ k ∷ [])
label_ok t k (parse_method n) = k == 13 && n == 18 && one_of t methods
label_ok t k _ = false

unfoldable case_ok : Bytes → Case → Bool
unfolding label_ok
case_ok t (on k g) = label_ok t k g
case_ok t (within from to g) = false

unfoldable is_first : Goto → Bool
is_first (st n) = n == 1
is_first _ = false

unfoldable continues : Bytes → Bool
unfolding case_ok is_first
continues t =
    let (cases, other) = select (method_state t) states in every (case_ok t) cases && is_first other

spelled-continue : every continues spelled ≡ true
unfolding continues every all_cuts select states one_of walk goto label_ok ends_in_c bytes_eq choose
spelled-continue = refl

-- Where a label leads from the bytes `w`, which end in the letters `t`, and the byte `b`.
pub data Spells (w t : Bytes) (b : ℕ) : Goto → Type 0 where
  back : {n : ℕ} → Front n (w ++ b ∷ []) → Spells w t b (st n)
  letter :
      {n : ℕ}
      → one_of (t ++ b ∷ []) spelled ≡ true
      → n ≡ method_state (t ++ b ∷ [])
      → Spells w t b (st n)
  ends : {n : ℕ} → b ≡ 13 → n ≡ 18 → one_of t methods ≡ true → Spells w t b (parse_method n)

IsEither-of : (m n b : ℕ) → (b == m || b == n) ≡ true → IsEither m n b
IsEither-of m n b e = elim (||-either (b == m) (b == n) e) [
  | inl p ↦ inl (==→eq b m p)
  | inr p ↦ inr (==→eq b n p)
]

back_to : (m : ℕ) (w t : Bytes) (b n : ℕ) → n ≡ m → Front m (w ++ b ∷ []) → Spells w t b (st n)
back_to m w t b n e h = back (subst (λ k. Front k (w ++ b ∷ [])) (sym e) h)

label_ok-Spells : (u t : Bytes) (b : ℕ) (g : Goto) → label_ok t b g ≡ true → Spells (u ++ t) t b g
unfolding label_ok
label_ok-Spells u t b (st n) e =
    elim (||-either
      (n == 2 && (b == 67 || b == 99) || n == 3 && (b == 83 || b == 115) && ends_in_c t)
      (one_of (t ++ b ∷ []) spelled && n == method_state (t ++ b ∷ [])) e) [
        | inl e' ↦
            elim (||-either (n == 2 && (b == 67 || b == 99))
              (n == 3 && (b == 83 || b == 115) && ends_in_c t) e') [
                | inl c ↦
                    let (to, p) = &&-both (n == 2) (b == 67 || b == 99) c in
                    back_to 2 (u ++ t) t b n (==→eq n 2 to)
                      (at_2 (⨾_one b (u ++ t) tt (IsEither-of 67 99 b p)))
                | inr s ↦
                    let (front, c) = &&-both (n == 3 && (b == 83 || b == 115)) (ends_in_c t) s in
                    let (to, p) = &&-both (n == 3) (b == 83 || b == 115) front in
                    let (v, x, e2, _, px) = ends_in_c-Ends t c in
                    back_to 3 (u ++ t) t b n (==→eq n 3 to) (
                      at_3 (
                        ⨾_snoc b (u ++ t) (λ y m. ⨾_one b y m (IsEither-of 83 115 b p))
                          (u ++ v, x, ap (λ z. u ++ z) e2 ∙ sym (append_assoc u v x), tt, px)))
              ]
        | inr l ↦
            let (o, m) =
              &&-both (one_of (t ++ b ∷ []) spelled) (n == method_state (t ++ b ∷ [])) l in
            letter o (==→eq n (method_state (t ++ b ∷ [])) m)
      ]
label_ok-Spells u t b (parse_method n) e =
    let (front, o) = &&-both (b == 13 && n == 18) (one_of t methods) e in
    let (cr, to) = &&-both (b == 13) (n == 18) front in ends (==→eq b 13 cr) (==→eq n 18 to) o
label_ok-Spells u t b leave e = cc
label_ok-Spells u t b (marking n) e = cc
label_ok-Spells u t b (eob n) e = cc

cases-Each :
    (u t : Bytes) (b : ℕ) (cases : List Case)
    → every (case_ok t) cases ≡ true
    → Each (Spells (u ++ t) t b) b cases
unfolding every case_ok
cases-Each u t b [] e = none_left
cases-Each u t b (on k g ∷ cases) e =
    let (first, later) = &&-both (label_ok t k g) (every (case_ok t) cases) e in
    (λ p. label_ok-Spells u t b g (ap (λ x. label_ok t x g) p ∙ first))
    ▸ cases-Each u t b cases later
cases-Each u t b (within from to g ∷ cases) e = cc

other-Spells : (w t : Bytes) (b : ℕ) (g : Goto) → is_first g ≡ true → Spells w t b g
unfolding is_first
other-Spells w t b (st n) e = back_to 1 w t b n (==→eq n 1 e) at_1
other-Spells w t b leave e = cc
other-Spells w t b (marking n) e = cc
other-Spells w t b (parse_method n) e = cc
other-Spells w t b (eob n) e = cc

pub spelled-Spells :
    (u t : Bytes) (b : ℕ) → one_of t spelled ≡ true → Spells (u ++ t) t b (goto (method_state t) b)
unfolding goto continues
spelled-Spells u t b o =
    let switch = select (method_state t) states in
    let (cases, first) =
      &&-both (every (case_ok t) switch.0) (is_first switch.1)
        (every-one_of continues spelled t spelled-continue o) in
    switch_cases (Spells (u ++ t) t b) switch b (cases-Each u t b switch.0 cases)
      (other-Spells (u ++ t) t b switch.1 first)
