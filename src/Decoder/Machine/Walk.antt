-- ===== src/Decoder/Machine/Walk.antt =====
-- decoder/machine.go: the states that the scanner goes through, without its actions, and what holds
-- of every label that a switch can choose.
use heplify.Common.{
  ℕ, suc, Option, none, some, ◌≤◌, ◌≡◌, refl, sym, ap, ◌∙◌, ◌||◌, &&-both, Bool, true, inl, inr,
  ◌&&◌, List, [], ◌∷◌, ◌++◌, Bool-cases, ==→eq, arith,
}
use heplify.Common.Bytes.{Bytes, bytes_eq, bytes_eq_iff}
use heplify.Decoder.Machine.Labels.{
  Goto, leave, st, marking, parse_method, eob, Case, on, within, Switch, applies, label, choose,
}
use heplify.Decoder.Machine.Grammar.{one_of, methods}
use heplify.Decoder.Machine.Scan.{Scan, carry, step, exec, arrive, with_cseq, marked, goto}

unfoldable pub destination : Goto → ℕ
destination leave = 0
destination (st n) = n
destination (marking n) = n
destination (parse_method n) = n
destination (eob n) = n

unfoldable pub walk : ℕ → Bytes → ℕ
unfolding destination
walk s [] = s
walk s (b ∷ w) = walk (destination (goto s b)) w

pub walk-append : (s : ℕ) (u v : Bytes) → walk s (u ++ v) ≡ walk (walk s u) v
unfolding walk
walk-append s [] v = refl
walk-append s (b ∷ u) v = walk-append (destination (goto s b)) u v

pub walk-snoc : (w : Bytes) (b : ℕ) → walk 1 (w ++ b ∷ []) ≡ destination (goto (walk 1 w) b)
unfolding walk
walk-snoc w b = walk-append 1 w (b ∷ [])

with_cseq-cs : (s t : Scan) (r : Option Bytes) → with_cseq s r ≡ some t → t.cs ≡ s.cs
unfolding with_cseq
with_cseq-cs s t none e = cc
with_cseq-cs s t (some text) e = cc

-- A label that does not panic leads to its state.
pub arrive-destination :
    (msg : Bytes) (g : Goto) (s t : Scan) → arrive msg g s ≡ some t → t.cs ≡ destination g
unfolding arrive destination
arrive-destination msg leave s t e = cc
arrive-destination msg (st n) s t e = cc
arrive-destination msg (marking n) s t e = cc
arrive-destination msg (parse_method n) s t e =
    with_cseq-cs (record s { cs = n; p = suc s.p }) t (marked msg s) e
arrive-destination msg (eob n) s t e = cc

exec_walks-on :
    (msg rest : Bytes) (n : ℕ) (t : Scan) (r : Option Scan)
    → ((u : Scan) → r ≡ some u → u.cs ≡ n)
    → ((u : Scan) → exec msg rest u ≡ some t → t.cs ≡ walk u.cs rest)
    → carry r (exec msg rest) ≡ some t
    → t.cs ≡ walk n rest
exec_walks-on msg rest n t none f g e = cc
exec_walks-on msg rest n t (some u) f g e = g u e ∙ ap (λ k. walk k rest) (f u refl)

pub exec-walk : (msg rest : Bytes) (s t : Scan) → exec msg rest s ≡ some t → t.cs ≡ walk s.cs rest
unfolding exec walk step
exec-walk msg [] s t e = cc
exec-walk msg (b ∷ rest) s t e =
    exec_walks-on msg rest (destination (goto s.cs b)) t (step msg b s)
      (λ u. arrive-destination msg (goto s.cs b) s u) (λ u. exec-walk msg rest u t) e

abbrev pub Applies : Case → ℕ → Type 0
Applies (on n g) b = b ≡ n
Applies (within from to g) b = (from ≤ b) × (b ≤ to)

applies-Applies : (c : Case) (b : ℕ) → applies c b ≡ true → Applies c b
unfolding applies
applies-Applies (on n g) b e = ==→eq b n e
applies-Applies (within from to g) b e = ground arith

-- A property of the label of every case that applies to a byte.
infixr 20 ◌▸◌
pub data Each (P : Goto → Type 0) (b : ℕ) : List Case → Type 0 where
  none_left : Each P b []
  ◌▸◌ :
      {c : Case} {cases : List Case}
      → (Applies c b → P (label c))
      → Each P b cases
      → Each P b (c ∷ cases)

choose_cases :
    (P : Goto → Type 0) (cases : List Case) (other : Goto) (b : ℕ)
    → Each P b cases
    → P other
    → P (choose cases other b)
unfolding choose
choose_cases P [] other b none_left d = d
choose_cases P (c ∷ cases) other b (first ▸ all) d = elim (Bool-cases (applies c b)) [
  | inl e ↦ rw e (first (applies-Applies c b e))
  | inr e ↦ rw e (choose_cases P cases other b all d)
]

-- What holds of the label of each case that applies, and of the default, holds of the choice.
pub switch_cases :
    (P : Goto → Type 0) (s : Switch) (b : ℕ) → Each P b s.0 → P s.1 → P (choose s.0 s.1 b)
switch_cases P s b = choose_cases P s.0 s.1 b

unfoldable pub every {ℓ} : {A : Type ℓ} → (A → Bool) → List A → Bool
every test [] = true
every test (x ∷ xs) = test x && every test xs

pub every-one_of :
    (test : Bytes → Bool) (xs : List Bytes) (t : Bytes)
    → every test xs ≡ true
    → one_of t xs ≡ true
    → test t ≡ true
unfolding every one_of
every-one_of test [] t e o = cc
every-one_of test (x ∷ xs) t e o = elim (Bool-cases (bytes_eq t x)) [
  | inl same ↦ ap test ((bytes_eq_iff t x).0 same) ∙ (&&-both (test x) (every test xs) e).0
  | inr other ↦
      every-one_of test xs t (&&-both (test x) (every test xs) e).1
        (ap (λ c. c || one_of t xs) (sym other) ∙ o)
]

-- The letters of the methods one by one: each method cut off behind each of its letters.
unfoldable cuts : Bytes → Bytes → List Bytes
cuts done [] = []
cuts done (b ∷ w) = (done ++ b ∷ []) ∷ cuts (done ++ b ∷ []) w

unfoldable pub all_cuts : List Bytes → List Bytes
unfolding cuts
all_cuts [] = []
all_cuts (m ∷ ms) = cuts [] m ++ all_cuts ms

abbrev pub spelled : List Bytes
spelled = all_cuts methods

-- The state behind the bytes of a method read so far.
abbrev pub method_state : Bytes → ℕ
method_state t = walk 14 t
