-- ===== src/Decoder/Machine/Invariant.antt =====
-- decoder/machine.go: what the variables of the scanner say of the bytes read so far.
use heplify.Common.{
  ℕ, suc, ◌≤◌, ◌≡◌, refl, sym, ap, ◌∙◌, true, ◌⊎◌, inl, inr, [], ◌∷◌, ◌++◌, append_assoc,
  append-nil, le→leb, Option, none, some, length, length-append, take-append, drop-append, arith,
}
use mathlib.Core.Path.{subst}
use heplify.Common.Bytes.{Bytes}
use heplify.Decoder.Machine.Labels.{Goto, leave, parse_method, eob, choose}
use heplify.Decoder.Machine.Scan.{
  carry, goto, Scan, marked, with_cseq, arrive, step, exec, start, parse_cseq, select, states,
}
use heplify.Decoder.Machine.Tables.AckToInvite.{case_18}
use heplify.Decoder.Machine.Grammar.{front, one_of, IsMethod}
use heplify.Decoder.Machine.Walk.{
  walk-snoc, arrive-destination, switch_cases, ◌▸◌, none_left, spelled, method_state, walk,
  destination,
}
use heplify.Decoder.Machine.Front.Stages.{Front, at_1, Leads, moves, begins}
use heplify.Decoder.Machine.Front.Moves.{Front-Leads}
use heplify.Decoder.Machine.Spell.{Spells, back, letter, ends, spelled-Spells}

-- The scanner has set the field and reads at most a line feed.
abbrev pub Done : ℕ → Type 0
Done n = (n ≡ 18) ⊎ (n ≡ 71) ⊎ (n ≡ 0)

-- The state of the scanner behind the bytes `w`: in front of a method, within one, whose letters
-- begin at the mark, or done behind the line `u ++ t` and its carriage return.
pub data Behind (w : Bytes) (s : Scan) : Type 0 where
  in_front : s.p ≡ length w → s.mark ≤ s.p → s.cseq ≡ none → Front s.cs w → Behind w s
  in_method :
      s.p ≡ length w
      → s.cseq ≡ none
      → (u t : Bytes) → w ≡ u ++ t
      → front u
      → one_of t spelled ≡ true
      → s.mark ≡ length u
      → s.cs ≡ method_state t
      → Behind w s
  done :
      Done s.cs
      → (u t rest : Bytes) → w ≡ (u ++ t) ++ 13 ∷ rest
      → front u
      → IsMethod t
      → ¬ Done (walk 1 (u ++ t))
      → s.cseq ≡ some t
      → Behind w s

-- The outcome of a step: it does not panic, and the invariant holds behind one byte more.
abbrev pub Goes : Bytes → Option Scan → Type 0
Goes w none = ⊥
Goes w (some s) = Behind w s

p_snoc : {p : ℕ} (w : Bytes) (b : ℕ) → p ≡ length w → suc p ≡ length (w ++ b ∷ [])
p_snoc w b e = omega (arith, length-append w (b ∷ []))

-- In front of the method a label moves on, or sets the mark.
front-Goes :
    (msg w : Bytes) (b : ℕ) (s : Scan) (g : Goto)
    → s.p ≡ length w
    → s.mark ≤ s.p
    → s.cseq ≡ none
    → Leads w b g
    → Goes (w ++ b ∷ []) (arrive msg g s)
unfolding arrive
front-Goes msg w b s _ p m c (moves h) = in_front (p_snoc w b p) (omega arith) c h
front-Goes msg w b s _ p m c (begins h o e) = in_method (p_snoc w b p) c w (b ∷ []) refl h o p e

marked-method :
    (s : Scan) (u t rest : Bytes)
    → s.mark ≡ length u
    → s.p ≡ length (u ++ t)
    → marked ((u ++ t) ++ rest) s ≡ some t
unfolding marked
marked-method s u t rest m p =
    let within = length-append (u ++ t) rest in
    let around = length-append u t in
    rw (
      le→leb s.mark s.p (omega arith),
      le→leb s.p (length ((u ++ t) ++ rest)) (omega arith),
      take-append s.p (u ++ t) rest p,
      drop-append s.mark u t m,
    )

-- The labels behind a method.
data Quiet : Goto → Type 0 where
  stops : Quiet leave
  line_end : Quiet (eob 71)

done-Quiet_18 : (b : ℕ) → Quiet (goto 18 b)
unfolding goto select states
done-Quiet_18 b = switch_cases Quiet case_18 b ((λ e. line_end) ▸ none_left) stops

done-Quiet : (n b : ℕ) → Done n → Quiet (goto n b)
unfolding goto select states choose
done-Quiet n b (inl e) = subst (λ k. Quiet (goto k b)) (sym e) (done-Quiet_18 b)
done-Quiet n b (inr (inl e)) = subst (λ k. Quiet (goto k b)) (sym e) stops
done-Quiet n b (inr (inr e)) = subst (λ k. Quiet (goto k b)) (sym e) stops

Quiet-Done : (g : Goto) → Quiet g → Done (destination g)
unfolding destination
Quiet-Done _ stops = inr (inr refl)
Quiet-Done _ line_end = inr (inl refl)

Quiet-parse_method : {n : ℕ} → ¬ Quiet (parse_method n)
Quiet-parse_method q = elim q [ ]

-- Within a method a label goes back to the header name, on to the next letter, or behind the method.
method-Goes :
    (u t rest : Bytes) (b : ℕ) (s : Scan) (g : Goto)
    → s.p ≡ length (u ++ t)
    → s.cseq ≡ none
    → front u
    → s.mark ≡ length u
    → (Done (walk 1 (u ++ t)) → Quiet g)
    → Spells (u ++ t) t b g
    → Goes ((u ++ t) ++ b ∷ []) (arrive ((u ++ t) ++ b ∷ rest) g s)
unfolding arrive with_cseq
method-Goes u t rest b s _ p c h m q (back f) =
    in_front (p_snoc (u ++ t) b p) (omega (arith, length-append u t)) c f
method-Goes u t rest b s _ p c h m q (letter o e) =
    in_method (p_snoc (u ++ t) b p) c u (t ++ b ∷ []) (append_assoc u t (b ∷ [])) h o m e
method-Goes u t rest b s _ p c h m q (ends cr e o) =
    rw (marked-method s u t (b ∷ rest) m p) (
      done (inl e) u t [] (ap (λ x. (u ++ t) ++ x ∷ []) cr) h o (λ d. Quiet-parse_method (q d))
        refl)

pub Done-Done : (n b : ℕ) → Done n → Done (destination (goto n b))
Done-Done n b d = Quiet-Done (goto n b) (done-Quiet n b d)

Done-Goes :
    (msg u t rest : Bytes) (b : ℕ) (s : Scan) (g : Goto)
    → front u
    → IsMethod t
    → ¬ Done (walk 1 (u ++ t))
    → s.cseq ≡ some t
    → Quiet g
    → Goes (((u ++ t) ++ 13 ∷ rest) ++ b ∷ []) (arrive msg g s)
unfolding arrive
Done-Goes msg u t rest b s _ h o n c stops =
    done (inr (inr refl)) u t (rest ++ b ∷ []) (append_assoc (u ++ t) (13 ∷ rest) (b ∷ [])) h o n c
Done-Goes msg u t rest b s _ h o n c line_end =
    done (inr (inl refl)) u t (rest ++ b ∷ []) (append_assoc (u ++ t) (13 ∷ rest) (b ∷ [])) h o n c

-- Every byte keeps the invariant, and no slice is out of range.
step-Goes :
    (w rest : Bytes) (b : ℕ) (s : Scan)
    → s.cs ≡ walk 1 w
    → Behind w s
    → Goes (w ++ b ∷ []) (step (w ++ b ∷ rest) b s)
unfolding step
step-Goes w rest b s at (in_front p m c h) =
    front-Goes (w ++ b ∷ rest) w b s (goto s.cs b) p m c (Front-Leads s.cs w b h)
step-Goes w rest b s at (in_method p c u t e h o m n) =
    let led = subst (λ k. Spells (u ++ t) t b (goto k b)) (sym n) (spelled-Spells u t b o) in
    let quiet =
      λ (d : Done (walk 1 (u ++ t))). done-Quiet s.cs b (subst Done (sym (at ∙ ap (walk 1) e)) d) in
    subst (λ x. Goes (x ++ b ∷ []) (arrive (x ++ b ∷ rest) (goto s.cs b) s)) (sym e)
      (method-Goes u t rest b s (goto s.cs b) (p ∙ ap length e) c h m quiet led)
step-Goes w rest b s at (done d u t r e h o n c) =
    subst (λ x. Goes (x ++ b ∷ []) (arrive (w ++ b ∷ rest) (goto s.cs b) s)) (sym e)
      (Done-Goes (w ++ b ∷ rest) u t r b s (goto s.cs b) h o n c (done-Quiet s.cs b d))

carry-Goes :
    (v w : Bytes) (r : Option Scan) (f : Scan → Option Scan)
    → Goes v r
    → ((t : Scan) → r ≡ some t → Behind v t → Goes w (f t))
    → Goes w (carry r f)
carry-Goes v w none f h k = h
carry-Goes v w (some t) f h k = k t refl h

exec-Goes :
    (w rest : Bytes) (s : Scan)
    → s.cs ≡ walk 1 w
    → Behind w s
    → Goes (w ++ rest) (exec (w ++ rest) rest s)
unfolding exec step
exec-Goes w [] s at h = subst (λ x. Behind x s) (sym (append-nil w)) h
exec-Goes w (b ∷ rest) s at h =
    carry-Goes (w ++ b ∷ []) (w ++ b ∷ rest) (step (w ++ b ∷ rest) b s) (exec (w ++ b ∷ rest) rest)
      (step-Goes w rest b s at h)
      λ t r k.
        let there =
          arrive-destination (w ++ b ∷ rest) (goto s.cs b) s t r
          ∙ ap (λ n. destination (goto n b)) at
          ∙ sym (walk-snoc w b) in
        subst (λ x. Goes x (exec x rest t)) (append_assoc w (b ∷ []) rest)
          (exec-Goes (w ++ b ∷ []) rest t there k)

pub parse_cseq-Goes : (msg : Bytes) → Goes msg (parse_cseq msg)
unfolding parse_cseq walk
parse_cseq-Goes msg = exec-Goes [] msg start refl (in_front refl (omega arith) refl at_1)

Leads-Quiet : (w : Bytes) (b : ℕ) (g : Goto) → Leads w b g → ¬ Quiet g
Leads-Quiet w b _ (moves h) q = elim q [ ]
Leads-Quiet w b _ (begins h o e) q = elim q [ ]

Spells-Quiet : (w t : Bytes) (b : ℕ) (g : Goto) → Spells w t b g → ¬ Quiet g
Spells-Quiet w t b _ (back f) q = elim q [ ]
Spells-Quiet w t b _ (letter o e) q = elim q [ ]
Spells-Quiet w t b _ (ends cr e o) q = elim q [ ]

-- A scanner in one of the last states has set the field.
pub Behind-Done : (w : Bytes) (s : Scan) → Behind w s → s.cseq ≡ none → ¬ Done s.cs
Behind-Done w s (in_front p m c h) e d =
    Leads-Quiet w 0 (goto s.cs 0) (Front-Leads s.cs w 0 h) (done-Quiet s.cs 0 d)
Behind-Done w s (in_method p c u t q h o m n) e d =
    Spells-Quiet (u ++ t) t 0 (goto s.cs 0)
      (subst (λ k. Spells (u ++ t) t 0 (goto k 0)) (sym n) (spelled-Spells u t 0 o))
      (done-Quiet s.cs 0 d)
Behind-Done w s (done _ u t r q h o n c) e d = cc
