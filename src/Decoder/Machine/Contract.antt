-- ===== src/Decoder/Machine/Contract.antt =====
-- decoder/machine.go: what `parseCSeq` promises, stated over the grammar of decoder/machine.rl.
use heplify.Common.{
  ◌≤◌, ◌<◌, ◌≡◌, refl, sym, ap, ◌∙◌, [], ◌∷◌, ◌++◌, Option, none, some, length, length-append,
  arith,
}
use mathlib.Core.Path.{subst}
use heplify.Common.Bytes.{Bytes}
use heplify.Decoder.Machine.Scan.{Scan, start, parse_cseq}
use heplify.Decoder.Machine.Grammar.{front, cseq_line, IsMethod}
use heplify.Decoder.Machine.Walk.{walk, exec-walk}
use heplify.Decoder.Machine.Invariant.{
  Done, Behind, in_front, in_method, done, Goes, parse_cseq-Goes, Behind-Done,
}
use heplify.Decoder.Machine.Finds.{line-Done}

-- A CSeq line and its carriage return stand at the front of the text.
abbrev pub Stands : Bytes → Bytes → Type 0
Stands msg line = (rest : Bytes) × (msg ≡ line ++ 13 ∷ rest) × cseq_line line

-- The method of the line that ends first.
abbrev pub Selected : Bytes → Bytes → Type 0
Selected msg m =
    (u : Bytes) × (rest : Bytes) × (msg ≡ (u ++ m) ++ 13 ∷ rest)
    × front u
    × IsMethod m
    × ¬ ((line : Bytes) × Stands msg line × (length line < length (u ++ m)))

-- What the field says of the text.
abbrev pub Answers : Bytes → Option Bytes → Type 0
Answers msg none = ¬ ((line : Bytes) × Stands msg line)
Answers msg (some m) = Selected msg m

-- Two splits of one text: the longer front part begins with the shorter one.
pub longer :
    (a x b y : Bytes)
    → a ++ x ≡ b ++ y
    → length a ≤ length b
    → (v : Bytes) × (b ≡ a ++ v) × (x ≡ v ++ y)
longer [] x b y e h = (b, refl, e)
longer (c ∷ a) x [] y e h = absurd (omega arith)
longer (c ∷ a) x (d ∷ b) y e h =
    let tail : a ++ x ≡ b ++ y = cc in
    let shorter : length a ≤ length b = omega arith in
    let (v, f, g) = longer a x b y tail shorter in (v, cc, g)

-- A CSeq line with a carriage return, at the front of bytes, has been seen behind them.
shorter-Done :
    (line r w rest v : Bytes)
    → cseq_line line
    → length line < length w
    → w ≡ line ++ v
    → 13 ∷ r ≡ v ++ 13 ∷ rest
    → Done (walk 1 w)
shorter-Done line r w rest [] l h e f = absurd (omega (arith, ap length e, length-append line []))
shorter-Done line r w rest (c ∷ v) l h e f =
    subst (λ x. Done (walk 1 x)) (sym (e ∙ ap (λ b. line ++ b ∷ v) cc)) (line-Done line v l)

Done-Selected :
    (msg u t rest : Bytes)
    → msg ≡ (u ++ t) ++ 13 ∷ rest
    → front u
    → IsMethod t
    → ¬ Done (walk 1 (u ++ t))
    → Selected msg t
Done-Selected msg u t rest e h o n = (
  u,
  rest,
  e,
  h,
  o,
  λ (line, (r, f, l), shorter).
      let (v, g, k) = longer line (13 ∷ r) (u ++ t) (13 ∷ rest) (sym f ∙ e) (omega arith) in
      n (shorter-Done line r (u ++ t) rest v l shorter g k),
)

none-Stands :
    (msg : Bytes) (s : Scan)
    → s.cs ≡ walk 1 msg
    → ¬ Done s.cs
    → ¬ ((line : Bytes) × Stands msg line)
none-Stands msg s at n (line, (rest, e, l)) =
    n (subst Done (sym (at ∙ ap (walk 1) e)) (line-Done line rest l))

Behind-Answers : (msg : Bytes) (s : Scan) → s.cs ≡ walk 1 msg → Behind msg s → Answers msg s.cseq
Behind-Answers msg s at (in_front p m c h) =
    subst (Answers msg) (sym c) (none-Stands msg s at (Behind-Done msg s (in_front p m c h) c))
Behind-Answers msg s at (in_method p c u t e h o m n) =
    subst (Answers msg) (sym c)
      (none-Stands msg s at (Behind-Done msg s (in_method p c u t e h o m n) c))
Behind-Answers msg s at (done d u t rest e h o n c) =
    subst (Answers msg) (sym c) (Done-Selected msg u t rest e h o n)

Goes-Answers :
    (msg : Bytes) (r : Option Scan)
    → ((s : Scan) → r ≡ some s → s.cs ≡ walk 1 msg)
    → Goes msg r
    → (s : Scan) × (r ≡ some s) × Answers msg s.cseq
Goes-Answers msg none f g = absurd g
Goes-Answers msg (some s) f g = (s, refl, Behind-Answers msg s (f s refl) g)

-- `parseCSeq` never slices out of range, and leaves in `d.CSeq` the method of the CSeq line of the
-- grammar that ends first in the data; it leaves nil exactly when no CSeq line with a carriage
-- return behind it begins anywhere in the data.
pub parse_cseq-Answers : (msg : Bytes) → (s : Scan) × (parse_cseq msg ≡ some s) × Answers msg s.cseq
unfolding parse_cseq
parse_cseq-Answers msg =
    Goes-Answers msg (parse_cseq msg) (λ s e. exec-walk msg msg start s e) (parse_cseq-Goes msg)
