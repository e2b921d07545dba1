-- ===== src/Decoder/Machine/Front/Number.antt =====
-- decoder/machine.go, states 10 to 14: where each byte leads from the number and behind it.
use heplify.Common.{ℕ, ◌≡◌, refl, sym, ap, ◌∙◌, true, inl, inr, [], ◌∷◌, drop}
use heplify.Common.Bytes.{Bytes, bytes_eq}
use heplify.Decoder.Machine.Labels.{choose, marking}
use heplify.Decoder.Machine.Walk.{
  switch_cases, Each, all_cuts, ◌▸◌, none_left, walk, method_state, spelled,
}
use heplify.Decoder.Machine.Tables.Header.{case_10, case_11, case_12, case_13, case_14}
use heplify.Decoder.Machine.Scan.{states, select, goto}
use heplify.Decoder.Machine.Grammar.{
  ◌⨾◌, plus, IsWsp, IsDigit, front, one_of, ⨾_snoc, ⨾_one, ⨾_start, plus-snoc, plus-one,
}
use heplify.Decoder.Machine.Front.Stages.{
  to_number, fold_cr, fold, at_1, at_10, at_11, at_12, at_13, at_14, Leads, moves, begins,
  plus-many, plus-lws, fold-lws, fold-ends, front_ends, seen_c,
}

method_begins :
    (k n : ℕ) (w : Bytes) (b : ℕ)
    → front w
    → one_of (k ∷ []) spelled ≡ true
    → n ≡ method_state (k ∷ [])
    → b ≡ k
    → Leads w b (marking n)
method_begins k n w b h o e p =
    begins h (ap (λ x. one_of (x ∷ []) spelled) p ∙ o) (e ∙ ap (λ x. method_state (x ∷ [])) (sym p))

-- The cases that the states 11 and 14 share: the first letter of a method, and c.
methods_begin : (w : Bytes) (b : ℕ) → front w → Each (Leads w b) b (drop 3 case_11.0)
unfolding one_of all_cuts bytes_eq walk choose goto select states
methods_begin w b h =
    method_begins 65 15 w b h refl refl
    ▸ method_begins 66 19 w b h refl refl
    ▸ method_begins 67 21 w b h refl refl
    ▸ method_begins 73 26 w b h refl refl
    ▸ method_begins 77 31 w b h refl refl
    ▸ method_begins 78 36 w b h refl refl
    ▸ method_begins 79 41 w b h refl refl
    ▸ method_begins 80 47 w b h refl refl
    ▸ method_begins 82 54 w b h refl refl
    ▸ method_begins 83 61 w b h refl refl
    ▸ method_begins 85 68 w b h refl refl
    ▸ (λ e. seen_c w b (inr e))
    ▸ none_left

pub front-Leads_10 : (w : Bytes) (b : ℕ) → to_number w → Leads w b (goto 10 b)
unfolding goto select states
front-Leads_10 w b h =
    switch_cases (Leads w b) case_10 b
      ((λ e. moves (at_11 (⨾_start b w h (plus-one IsWsp b (inl e)))))
        ▸ (λ e. moves (at_12 (⨾_start b w h (⨾_one b [] tt e))))
        ▸ (λ e. moves (at_11 (⨾_start b w h (plus-one IsWsp b (inr e)))))
        ▸ (λ e. seen_c w b (inl e))
        ▸ (λ e. seen_c w b (inr e))
        ▸ (λ d. moves (at_10 (⨾_snoc b w (plus-snoc IsDigit b d) h)))
        ▸ none_left)
      (moves at_1)

pub front-Leads_11 : (w : Bytes) (b : ℕ) → (to_number ⨾ plus IsWsp) w → Leads w b (goto 11 b)
unfolding goto select states
front-Leads_11 w b h =
    switch_cases (Leads w b) case_11 b
      ((λ e. moves (at_11 (⨾_snoc b w (plus-snoc IsWsp b (inl e)) h)))
        ▸ (λ e. moves (at_12 (⨾_snoc b w (λ v m. ⨾_one b v (plus-many IsWsp v m) e) h)))
        ▸ (λ e. moves (at_11 (⨾_snoc b w (plus-snoc IsWsp b (inr e)) h)))
        ▸ methods_begin w b (front_ends _ w plus-lws h))
      (moves at_1)

pub front-Leads_12 : (w : Bytes) (b : ℕ) → (to_number ⨾ fold_cr) w → Leads w b (goto 12 b)
unfolding goto select states
front-Leads_12 w b h =
    switch_cases (Leads w b) case_12 b
      ((λ e. moves (at_13 (⨾_snoc b w (λ v m. fold-ends v b m e) h)))
        ▸ (λ e. seen_c w b (inl e))
        ▸ (λ e. seen_c w b (inr e))
        ▸ none_left)
      (moves at_1)

pub front-Leads_13 : (w : Bytes) (b : ℕ) → (to_number ⨾ fold) w → Leads w b (goto 13 b)
unfolding goto select states
front-Leads_13 w b h =
    switch_cases (Leads w b) case_13 b
      ((λ e. moves (at_14 (⨾_snoc b w (λ v m. ⨾_start b v m (plus-one IsWsp b (inl e))) h)))
        ▸ (λ e. moves (at_14 (⨾_snoc b w (λ v m. ⨾_start b v m (plus-one IsWsp b (inr e))) h)))
        ▸ (λ e. seen_c w b (inl e))
        ▸ (λ e. seen_c w b (inr e))
        ▸ none_left)
      (moves at_1)

pub front-Leads_14 :
    (w : Bytes) (b : ℕ) → (to_number ⨾ (fold ⨾ plus IsWsp)) w → Leads w b (goto 14 b)
unfolding goto select states
front-Leads_14 w b h =
    switch_cases (Leads w b) case_14 b
      ((λ e. moves (at_14 (⨾_snoc b w (λ v. ⨾_snoc b v (plus-snoc IsWsp b (inl e))) h)))
        ▸ (λ e. moves (at_14 (⨾_snoc b w (λ v. ⨾_snoc b v (plus-snoc IsWsp b (inr e))) h)))
        ▸ methods_begin w b (front_ends _ w fold-lws h))
      (moves at_1)
