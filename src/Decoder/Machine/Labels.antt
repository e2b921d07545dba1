-- ===== src/Decoder/Machine/Labels.antt =====
-- decoder/machine.go: the labels a state can jump to, and the switch on the next byte.
use heplify.Common.{ℕ, Bool, [], ◌∷◌, List, leb, ◌==◌, ◌&&◌, if◌then◌else◌}

-- `leave` is the label st0, which ends the scan in state 0, and `st n` that of another state; the
-- rest run an action on the way to a state.
pub data Goto : Type 0 where
  leave : Goto
  st marking parse_method eob : ℕ → Goto

abbrev pub tr12 : Goto
tr12 = marking 15

abbrev pub tr27 : Goto
tr27 = parse_method 18

abbrev pub tr28 : Goto
tr28 = eob 71

abbrev pub tr13 : Goto
tr13 = marking 19

abbrev pub tr14 : Goto
tr14 = marking 21

abbrev pub tr15 : Goto
tr15 = marking 26

abbrev pub tr16 : Goto
tr16 = marking 31

abbrev pub tr17 : Goto
tr17 = marking 36

abbrev pub tr18 : Goto
tr18 = marking 41

abbrev pub tr19 : Goto
tr19 = marking 47

abbrev pub tr20 : Goto
tr20 = marking 54

abbrev pub tr21 : Goto
tr21 = marking 61

abbrev pub tr22 : Goto
tr22 = marking 68

-- `case n:` and `if from <= data[p] && data[p] <= to`, with the label behind it
pub data Case : Type 0 where
  on : ℕ → Goto → Case
  within : ℕ → ℕ → Goto → Case

-- The cases in order, and the label where none applies.
abbrev pub Switch : Type 0
Switch = List Case × Goto

unfoldable pub applies : Case → ℕ → Bool
applies (on n g) b = b == n
applies (within from to g) b = leb from b && leb b to

abbrev pub label : Case → Goto
label (on n g) = g
label (within from to g) = g

unfoldable pub choose : List Case → Goto → ℕ → Goto
unfolding applies
choose [] other b = other
choose (c ∷ cases) other b =
    let later = choose cases other b in if applies c b then label c else later
