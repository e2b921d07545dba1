-- ===== src/Decoder/Machine/Below.antt =====
-- decoder/machine.go: no label leads beyond state 71.
use heplify.Common.{
  ℕ, ◌<◌, ◌≡◌, refl, Bool, true, inl, inr, ◌&&◌, &&-both, List, [], ◌∷◌, ◌==◌, Bool-cases, ltb,
  ltb→lt,
}
use heplify.Common.Bytes.{Bytes}
use heplify.Decoder.Machine.Labels.{Goto, Case, Switch, label, choose, applies}
use heplify.Decoder.Machine.Scan.{states, select, goto}
use heplify.Decoder.Machine.Walk.{every, walk, destination}

below : Goto → Bool
below g = ltb (destination g) 72

unfoldable all_below : Switch → Bool
unfolding below
all_below s = every (λ c. below (label c)) s.0 && below s.1

all_below-choose :
    (cases : List Case) (other : Goto) (b : ℕ)
    → every (λ c. below (label c)) cases ≡ true
    → below other ≡ true
    → below (choose cases other b) ≡ true
unfolding every choose
all_below-choose [] other b e o = o
all_below-choose (c ∷ cases) other b e o =
    let (first, later) = &&-both (below (label c)) (every (λ c. below (label c)) cases) e in
    elim (Bool-cases (applies c b)) [
      | inl hit ↦ rw hit first
      | inr miss ↦ rw miss (all_below-choose cases other b later o)
    ]

all_below-select :
    (n : ℕ) (table : List (ℕ × Switch))
    → every (λ r. all_below r.1) table ≡ true
    → all_below (select n table) ≡ true
unfolding every select all_below below destination
all_below-select n [] e = refl
all_below-select n ((m, s) ∷ table) e =
    let (first, later) = &&-both (all_below s) (every (λ r. all_below r.1) table) e in
    elim (Bool-cases (n == m)) [
      | inl hit ↦ rw hit first
      | inr miss ↦ rw miss (all_below-select n table later)
    ]

states-below : every (λ r. all_below r.1) states ≡ true
unfolding every all_below states destination
states-below = refl

goto-below : (n b : ℕ) → below (goto n b) ≡ true
unfolding goto all_below
goto-below n b =
    let s = select n states in
    let (cases, other) =
      &&-both (every (λ c. below (label c)) s.0) (below s.1)
        (all_below-select n states states-below) in
    all_below-choose s.0 s.1 b cases other

pub walk-below : (n : ℕ) (w : Bytes) → n < 72 → walk n w < 72
unfolding walk below
walk-below n [] h = h
walk-below n (b ∷ w) h =
    walk-below (destination (goto n b)) w (ltb→lt (destination (goto n b)) 72 (goto-below n b))
