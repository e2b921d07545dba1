-- ===== src/Decoder/Machine/Reach.antt =====
-- decoder/machine.go against decoder/machine.rl: the states that the words of the grammar lead to.
use heplify.Common.{ℕ, ◌≡◌, sym, ap, ◌∙◌, ◌⊎◌, inl, inr, [], ◌∷◌, ◌++◌, append_assoc, append-nil}
use mathlib.Core.Path.{subst}
use heplify.Common.Bytes.{Bytes}
use heplify.Decoder.Machine.Scan.{goto}
use heplify.Decoder.Machine.Grammar.{Lang, ◌⨾◌, one, many, plus, opt, IsEither}
use heplify.Decoder.Machine.Walk.{walk, walk-snoc, destination}
use heplify.Decoder.Machine.Invariant.{Done, Done-Done}

-- The scanner is done behind `w`, or stands in a state of which `Q` holds.
abbrev pub Reaches : (ℕ → Type 0) → Bytes → Type 0
Reaches Q w = Done (walk 1 w) ⊎ Q (walk 1 w)

abbrev pub Moves : (ℕ → Type 0) → Lang → (ℕ → Type 0) → Type 0
Moves Q L R = (w v : Bytes) → Reaches Q w → L v → Reaches R (w ++ v)

abbrev pub Takes : (ℕ → Type 0) → (ℕ → Type 0) → (ℕ → Type 0) → Type 0
Takes Q P R = (n b : ℕ) → Q n → P b → R (destination (goto n b))

abbrev pub Is : ℕ → ℕ → Type 0
Is m n = n ≡ m

pub Moves-byte :
    (Q P R : ℕ → Type 0)
    → Takes Q P R
    → (w : Bytes) (b : ℕ) → Reaches Q w
    → P b
    → Reaches R (w ++ b ∷ [])
Moves-byte Q P R f w b (inl d) p = inl (subst Done (sym (walk-snoc w b)) (Done-Done (walk 1 w) b d))
Moves-byte Q P R f w b (inr q) p = inr (subst R (sym (walk-snoc w b)) (f (walk 1 w) b q p))

pub Moves-one : (Q P R : ℕ → Type 0) → Takes Q P R → Moves Q (one P) R
Moves-one Q P R f w v h (b, e, p) =
    subst (λ x. Reaches R (w ++ x)) (sym e) (Moves-byte Q P R f w b h p)

pub Moves-many : (Q P : ℕ → Type 0) → Takes Q P Q → Moves Q (many P) Q
Moves-many Q P f w [] h m = subst (Reaches Q) (sym (append-nil w)) h
Moves-many Q P f w (b ∷ v) h (p, m) =
    subst (Reaches Q) (append_assoc w (b ∷ []) v)
      (Moves-many Q P f (w ++ b ∷ []) v (Moves-byte Q P Q f w b h p) m)

pub Moves-⨾ : (Q R S : ℕ → Type 0) (L M : Lang) → Moves Q L R → Moves R M S → Moves Q (L ⨾ M) S
Moves-⨾ Q R S L M f g w v h (a, b, e, l, m) =
    subst (Reaches S) (append_assoc w a b ∙ ap (λ x. w ++ x) (sym e)) (g (w ++ a) b (f w a h l) m)

pub Moves-plus : (Q P R : ℕ → Type 0) → Takes Q P R → Takes R P R → Moves Q (plus P) R
Moves-plus Q P R f g = Moves-⨾ Q R R (one P) (many P) (Moves-one Q P R f) (Moves-many R P g)

pub Moves-opt :
    (Q R : ℕ → Type 0) (L : Lang) → ((n : ℕ) → Q n → R n) → Moves Q L R → Moves Q (opt L) R
Moves-opt Q R L i f w v (inl d) (inl e) =
    subst (λ x. Reaches R (w ++ x)) (sym e) (subst (Reaches R) (sym (append-nil w)) (inl d))
Moves-opt Q R L i f w v (inr q) (inl e) =
    subst (λ x. Reaches R (w ++ x)) (sym e)
      (subst (Reaches R) (sym (append-nil w)) (inr (i (walk 1 w) q)))
Moves-opt Q R L i f w v h (inr l) = f w v h l

pub Moves-or : (Q R S : ℕ → Type 0) (L : Lang) → ((n : ℕ) → R n → S n) → Moves Q L R → Moves Q L S
Moves-or Q R S L i f w v h l = elim (f w v h l) [
  | inl d ↦ inl d
  | inr r ↦ inr (i (walk 1 (w ++ v)) r)
]

-- One state and one byte, computed.
pub takes :
    (m k r n b : ℕ) → destination (goto m k) ≡ r → n ≡ m → b ≡ k → destination (goto n b) ≡ r
takes m k r n b e p q = ap (λ x. destination (goto x b)) p ∙ ap (λ x. destination (goto m x)) q ∙ e

pub takes_either :
    (m j k r n b : ℕ)
    → destination (goto m j) ≡ r
    → destination (goto m k) ≡ r
    → n ≡ m
    → IsEither j k b
    → destination (goto n b) ≡ r
takes_either m j k r n b e f p (inl q) = takes m j r n b e p q
takes_either m j k r n b e f p (inr q) = takes m k r n b f p q
