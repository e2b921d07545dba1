-- ===== src/Decoder/Machine/Unique.antt =====
-- decoder/machine.rl: a text selects at most one method, so that `parseCSeq` finds the one there is.
use heplify.Common.{
  ℕ, suc, ◌+◌, ◌≤◌, ◌<◌, ◌≡◌, refl, sym, ap, ◌∙◌, Bool, true, not, Bool-cases, ltb, ltb→lt,
  not_ltb→le, take, take-append, ◌⊎◌, inl, inr, ◌==◌, ◌&&◌, ◌||◌, &&-both, [], ◌∷◌, ◌++◌,
  append_assoc, Option, none, some, length, length-append, arith,
}
use mathlib.Core.Path.{subst}
use heplify.Common.Bytes.{Bytes}
use heplify.Decoder.Machine.Scan.{Scan, parse_cseq}
use heplify.Decoder.Machine.Grammar.{many, IsWsp, front, methods, IsMethod}
use heplify.Decoder.Machine.Walk.{every, every-one_of}
use heplify.Decoder.Machine.Contract.{Selected, Answers, longer, parse_cseq-Answers}

-- A word that ends in a byte of the class.
abbrev EndsIn : (ℕ → Type 0) → Bytes → Type 0
EndsIn P w = (x : Bytes) × (b : ℕ) × (w ≡ x ++ b ∷ []) × P b

many-EndsIn : (P : ℕ → Type 0) (b : ℕ) (v : Bytes) → P b → many P v → EndsIn P (b ∷ v)
many-EndsIn P b [] p m = ([], b, refl, p)
many-EndsIn P b (c ∷ v) p (q, m) =
    let (x, d, e, r) = many-EndsIn P c v q m in (b ∷ x, d, ap (λ z. b ∷ z) e, r)

front-EndsIn : (w : Bytes) → front w → EndsIn IsWsp w
front-EndsIn w (u, l, e, h, (f, p, e', o, (s, v, e'', (b, es, q), m))) =
    let (x, d, g, r) = many-EndsIn IsWsp b v q m in
    let inner = e ∙ ap (λ z. u ++ z) (e' ∙ ap (λ z. f ++ z) (e'' ∙ ap (λ z. z ++ v) es ∙ g)) in
    (
      u ++ (f ++ x),
      d,
      inner
          ∙ ap (λ z. u ++ z) (sym (append_assoc f x (d ∷ [])))
          ∙ sym (append_assoc u (f ++ x) (d ∷ [])),
      r,
    )

unfoldable no_wsp : Bytes → Bool
no_wsp [] = true
no_wsp (b ∷ w) = not (b == 9 || b == 32) && no_wsp w

methods-no_wsp : every no_wsp methods ≡ true
unfolding every no_wsp
methods-no_wsp = refl

no_wsp-append : (x w : Bytes) (b : ℕ) → IsWsp b → ¬ (no_wsp (x ++ b ∷ w) ≡ true)
unfolding no_wsp
no_wsp-append [] w b (inl p) e = cc
no_wsp-append [] w b (inr p) e = cc
no_wsp-append (c ∷ x) w b p e =
    no_wsp-append x w b p (&&-both (not (c == 9 || c == 32)) (no_wsp (x ++ b ∷ w)) e).1

-- Within a method no front part ends.
no_front : (u v m n : Bytes) → IsMethod m → front (u ++ v) → m ≡ v ++ n → v ≡ []
no_front u [] m n o h e = refl
no_front u (c ∷ v) m n o h e =
    let (x, b, f, p) = front-EndsIn (u ++ c ∷ v) h in
    let lengths : length u + suc (length v) ≡ length x + 1 =
      sym (length-append u (c ∷ v)) ∙ ap length f ∙ length-append x (b ∷ []) in
    let (y, g, k) = longer u (c ∷ v) x (b ∷ []) f (omega arith) in
    absurd (
      no_wsp-append y n b p (
        ap no_wsp (sym (e ∙ ap (λ z. z ++ n) k ∙ append_assoc y (b ∷ []) n))
        ∙ every-one_of no_wsp methods m methods-no_wsp o))

same_front : (a x b y : Bytes) → a ++ x ≡ b ++ y → length a ≡ length b → a ≡ b
same_front a x b y e h =
    sym (take-append (length a) a x refl) ∙ ap (take (length a)) e ∙ take-append (length a) b y h

lt→le : (a b : ℕ) → a < b → a ≤ b
lt→le a b h = omega arith

not_lt→le : (a b : ℕ) → ¬ (a < b) → b ≤ a
not_lt→le a b h = omega arith

Selected-unique_le :
    (msg m n : Bytes) (p : Selected msg m) (q : Selected msg n) → length p.0 ≤ length q.0 → m ≡ n
Selected-unique_le msg m n (u, r, e, h, o, s) (u', r', e', h', o', s') le =
    let first =
      not_lt→le (length (u ++ m)) (length (u' ++ n))
        (λ k. s' (u ++ m, (r, e, (u, m, refl, h, o)), k)) in
    let second =
      not_lt→le (length (u' ++ n)) (length (u ++ m))
        (λ k. s (u' ++ n, (r', e', (u', n, refl, h', o')), k)) in
    let whole = same_front (u ++ m) (13 ∷ r) (u' ++ n) (13 ∷ r') (sym e ∙ e') (omega arith) in
    let (v, f, g) = longer u m u' n whole le in
    g ∙ ap (λ z. z ++ n) (no_front u v m n o (subst front f h') g)

le_cases : (a b : ℕ) → (a ≤ b) ⊎ (b ≤ a)
le_cases a b = elim (Bool-cases (ltb b a)) [
  | inl e ↦ inr (lt→le b a (ltb→lt b a e))
  | inr e ↦ inl (not_ltb→le b a e)
]

Selected-unique : (msg m n : Bytes) → Selected msg m → Selected msg n → m ≡ n
Selected-unique msg m n p q = elim (le_cases (length p.0) (length q.0)) [
  | inl h ↦ Selected-unique_le msg m n p q h
  | inr h ↦ sym (Selected-unique_le msg n m q p h)
]

Answers-Selected : (msg m : Bytes) (o : Option Bytes) → Answers msg o → Selected msg m → o ≡ some m
Answers-Selected msg m none a (u, r, e, h, o, s) = absurd (a (u ++ m, (r, e, (u, m, refl, h, o))))
Answers-Selected msg m (some n) a q = ap some (Selected-unique msg n m a q)

Answers-unique : (msg : Bytes) (o r : Option Bytes) → Answers msg o → Answers msg r → o ≡ r
Answers-unique msg o (some m) a q = Answers-Selected msg m o a q
Answers-unique msg none none a q = refl
Answers-unique msg (some m) none a q = sym (Answers-Selected msg m none q a)

-- A text has one answer, and `parseCSeq` leaves it in `d.CSeq`.
pub parse_cseq-answer :
    (msg : Bytes) (o : Option Bytes)
    → Answers msg o
    → (s : Scan) × (parse_cseq msg ≡ some s) × (s.cseq ≡ o)
parse_cseq-answer msg o q =
    let (s, e, a) = parse_cseq-Answers msg in (s, e, Answers-unique msg s.cseq o a q)

-- The method of the first CSeq line of the data is what `parseCSeq` leaves in `d.CSeq`.
pub parse_cseq-selects :
    (msg m : Bytes) → Selected msg m → (s : Scan) × (parse_cseq msg ≡ some s) × (s.cseq ≡ some m)
parse_cseq-selects msg m q = parse_cseq-answer msg (some m) q
