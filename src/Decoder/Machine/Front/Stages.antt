-- ===== src/Decoder/Machine/Front/Stages.antt =====
-- decoder/machine.go, states 1 to 14: what the bytes read so far end in, after decoder/machine.rl.
use heplify.Common.{ℕ, ◌≡◌, refl, sym, ap, ◌∙◌, true, inl, inr, [], ◌∷◌, ◌++◌}
use mathlib.Core.Path.{subst}
use heplify.Common.Bytes.{Bytes}
use heplify.Decoder.Machine.Labels.{Goto, st, marking}
use heplify.Decoder.Machine.Walk.{method_state, spelled}
use heplify.Decoder.Machine.Grammar.{
  Lang, anything, ◌⨾◌, one, many, plus, IsEither, IsWsp, IsDigit, crlf, lws, sws, hcolon, cseq_name,
  front, one_of, ⨾_assoc, ⨾_one, plus-one,
}

abbrev pub to_name : Lang
to_name = anything ⨾ cseq_name

abbrev pub to_colon : Lang
to_colon = to_name ⨾ (many IsWsp ⨾ one (λ b. b ≡ 58))

abbrev pub to_number : Lang
to_number = anything ⨾ cseq_name ⨾ hcolon ⨾ plus IsDigit

-- A line break within white space.
abbrev pub fold_cr : Lang
fold_cr = many IsWsp ⨾ one (λ b. b ≡ 13)

abbrev pub fold : Lang
fold = many IsWsp ⨾ crlf

pub data Front : ℕ → Bytes → Type 0 where
  at_1 : {w : Bytes} → Front 1 w
  at_2 : {w : Bytes} → (anything ⨾ one (IsEither 67 99)) w → Front 2 w
  at_3 : {w : Bytes} → (anything ⨾ (one (IsEither 67 99) ⨾ one (IsEither 83 115))) w → Front 3 w
  at_4 :
      {w : Bytes}
      → (anything ⨾ (one (IsEither 67 99) ⨾ one (IsEither 83 115) ⨾ one (IsEither 69 101))) w
      → Front 4 w
  at_5 : {w : Bytes} → (to_name ⨾ many IsWsp) w → Front 5 w
  at_6 : {w : Bytes} → (to_colon ⨾ many IsWsp) w → Front 6 w
  at_7 : {w : Bytes} → (to_colon ⨾ fold_cr) w → Front 7 w
  at_8 : {w : Bytes} → (to_colon ⨾ fold) w → Front 8 w
  at_9 : {w : Bytes} → (to_colon ⨾ (fold ⨾ plus IsWsp)) w → Front 9 w
  at_10 : {w : Bytes} → to_number w → Front 10 w
  at_11 : {w : Bytes} → (to_number ⨾ plus IsWsp) w → Front 11 w
  at_12 : {w : Bytes} → (to_number ⨾ fold_cr) w → Front 12 w
  at_13 : {w : Bytes} → (to_number ⨾ fold) w → Front 13 w
  at_14 : {w : Bytes} → (to_number ⨾ (fold ⨾ plus IsWsp)) w → Front 14 w

-- Where a label leads from the bytes `w` and the byte `b` behind them, within the front part.
pub data Leads (w : Bytes) (b : ℕ) : Goto → Type 0 where
  moves : {n : ℕ} → Front n (w ++ b ∷ []) → Leads w b (st n)
  begins :
      {n : ℕ}
      → front w
      → one_of (b ∷ []) spelled ≡ true
      → n ≡ method_state (b ∷ [])
      → Leads w b (marking n)

pub wsp-sws : (v : Bytes) → many IsWsp v → sws v
wsp-sws [] h = inl refl
wsp-sws (b ∷ v) (p, h) = inr ([], b ∷ v, refl, inl refl, (b ∷ [], v, refl, (b, refl, p), h))

pub plus-many : (P : ℕ → Type 0) (v : Bytes) → plus P v → many P v
plus-many P v (u, w, e, (b, e', p), m) = subst (many P) (sym (e ∙ ap (λ x. x ++ w) e')) (p, m)

pub plus-lws : (v : Bytes) → plus IsWsp v → lws v
plus-lws v h = ([], v, refl, inl refl, h)

pub fold-lws : (v : Bytes) → (fold ⨾ plus IsWsp) v → lws v
fold-lws v (u, w, e, f, p) = (u, w, e, inr f, p)

pub fold-ends : (v : Bytes) (b : ℕ) → fold_cr v → b ≡ 10 → fold (v ++ b ∷ [])
fold-ends v b h e = ⨾_assoc (v ++ b ∷ []) (⨾_one b v h e)

pub number_begins :
    (M : Lang) (b : ℕ) (w : Bytes)
    → ((v : Bytes) → M v → sws v)
    → (to_colon ⨾ M) w
    → IsDigit b
    → to_number (w ++ b ∷ [])
number_begins M b w f (u, v, e, h, m) d =
    (w, b ∷ [], refl, ⨾_assoc w (u, v, e, h, f v m), plus-one IsDigit b d)

pub front_ends : (M : Lang) (w : Bytes) → ((v : Bytes) → M v → lws v) → (to_number ⨾ M) w → front w
front_ends M w f (u, v, e, h, m) = (u, v, e, h, f v m)

pub seen_c : (w : Bytes) (b : ℕ) → IsEither 67 99 b → Leads w b (st 2)
seen_c w b p = moves (at_2 (⨾_one b w tt p))
