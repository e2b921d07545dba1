-- ===== src/Decoder/Machine/Front/Name.antt =====
-- decoder/machine.go, states 2 to 9: where each byte leads from the header name and its colon.
use heplify.Common.{ℕ, inl, inr, [], ◌∷◌, ◌++◌}
use heplify.Common.Bytes.{Bytes}
use heplify.Decoder.Machine.Walk.{switch_cases, ◌▸◌, none_left}
use heplify.Decoder.Machine.Tables.Header.{
  case_2, case_3, case_4, case_5, case_6, case_7, case_8, case_9,
}
use heplify.Decoder.Machine.Scan.{states, select, goto}
use heplify.Decoder.Machine.Grammar.{
  anything, ◌⨾◌, one, many, plus, IsEither, IsWsp, ⨾_snoc, ⨾_one, ⨾_start, ⨾_nil, many-snoc,
  plus-snoc, plus-one,
}
use heplify.Decoder.Machine.Front.Stages.{
  to_name, to_colon, fold_cr, fold, at_1, at_3, at_4, at_5, at_6, at_7, at_8, at_9, at_10, Leads,
  moves, wsp-sws, fold-lws, fold-ends, number_begins, seen_c,
}

pub front-Leads_2 : (w : Bytes) (b : ℕ) → (anything ⨾ one (IsEither 67 99)) w → Leads w b (goto 2 b)
unfolding goto select states
front-Leads_2 w b h =
    switch_cases (Leads w b) case_2 b
      ((λ e. seen_c w b (inl e))
        ▸ (λ e. moves (at_3 (⨾_snoc b w (λ v m. ⨾_one b v m (inl e)) h)))
        ▸ (λ e. seen_c w b (inr e))
        ▸ (λ e. moves (at_3 (⨾_snoc b w (λ v m. ⨾_one b v m (inr e)) h)))
        ▸ none_left)
      (moves at_1)

pub front-Leads_3 :
    (w : Bytes) (b : ℕ)
    → (anything ⨾ (one (IsEither 67 99) ⨾ one (IsEither 83 115))) w
    → Leads w b (goto 3 b)
unfolding goto select states
front-Leads_3 w b h =
    switch_cases (Leads w b) case_3 b
      ((λ e. seen_c w b (inl e))
        ▸ (λ e. moves (at_4 (⨾_snoc b w (λ v m. ⨾_one b v m (inl e)) h)))
        ▸ (λ e. seen_c w b (inr e))
        ▸ (λ e. moves (at_4 (⨾_snoc b w (λ v m. ⨾_one b v m (inr e)) h)))
        ▸ none_left)
      (moves at_1)

pub front-Leads_4 :
    (w : Bytes) (b : ℕ)
    → (anything ⨾ (one (IsEither 67 99) ⨾ one (IsEither 83 115) ⨾ one (IsEither 69 101))) w
    → Leads w b (goto 4 b)
unfolding goto select states
front-Leads_4 w b h =
    switch_cases (Leads w b) case_4 b
      ((λ e. seen_c w b (inl e))
        ▸ (λ e. moves (at_5 (⨾_nil (w ++ b ∷ []) (⨾_snoc b w (λ v m. ⨾_one b v m (inl e)) h) tt)))
        ▸ (λ e. seen_c w b (inr e))
        ▸ (λ e. moves (at_5 (⨾_nil (w ++ b ∷ []) (⨾_snoc b w (λ v m. ⨾_one b v m (inr e)) h) tt)))
        ▸ none_left)
      (moves at_1)

pub front-Leads_5 : (w : Bytes) (b : ℕ) → (to_name ⨾ many IsWsp) w → Leads w b (goto 5 b)
unfolding goto select states
front-Leads_5 w b h =
    switch_cases (Leads w b) case_5 b
      ((λ e. moves (at_5 (⨾_snoc b w (many-snoc IsWsp b (inl e)) h)))
        ▸ (λ e. moves (at_5 (⨾_snoc b w (many-snoc IsWsp b (inr e)) h)))
        ▸ (λ e. moves (at_6 (⨾_nil (w ++ b ∷ []) (⨾_snoc b w (λ v m. ⨾_one b v m e) h) tt)))
        ▸ (λ e. seen_c w b (inl e))
        ▸ (λ e. seen_c w b (inr e))
        ▸ none_left)
      (moves at_1)

pub front-Leads_6 : (w : Bytes) (b : ℕ) → (to_colon ⨾ many IsWsp) w → Leads w b (goto 6 b)
unfolding goto select states
front-Leads_6 w b h =
    switch_cases (Leads w b) case_6 b
      ((λ e. moves (at_6 (⨾_snoc b w (many-snoc IsWsp b (inl e)) h)))
        ▸ (λ e. moves (at_7 (⨾_snoc b w (λ v m. ⨾_one b v m e) h)))
        ▸ (λ e. moves (at_6 (⨾_snoc b w (many-snoc IsWsp b (inr e)) h)))
        ▸ (λ e. seen_c w b (inl e))
        ▸ (λ e. seen_c w b (inr e))
        ▸ (λ d. moves (at_10 (number_begins (many IsWsp) b w wsp-sws h d)))
        ▸ none_left)
      (moves at_1)

pub front-Leads_7 : (w : Bytes) (b : ℕ) → (to_colon ⨾ fold_cr) w → Leads w b (goto 7 b)
unfolding goto select states
front-Leads_7 w b h =
    switch_cases (Leads w b) case_7 b
      ((λ e. moves (at_8 (⨾_snoc b w (λ v m. fold-ends v b m e) h)))
        ▸ (λ e. seen_c w b (inl e))
        ▸ (λ e. seen_c w b (inr e))
        ▸ none_left)
      (moves at_1)

pub front-Leads_8 : (w : Bytes) (b : ℕ) → (to_colon ⨾ fold) w → Leads w b (goto 8 b)
unfolding goto select states
front-Leads_8 w b h =
    switch_cases (Leads w b) case_8 b
      ((λ e. moves (at_9 (⨾_snoc b w (λ v m. ⨾_start b v m (plus-one IsWsp b (inl e))) h)))
        ▸ (λ e. moves (at_9 (⨾_snoc b w (λ v m. ⨾_start b v m (plus-one IsWsp b (inr e))) h)))
        ▸ (λ e. seen_c w b (inl e))
        ▸ (λ e. seen_c w b (inr e))
        ▸ none_left)
      (moves at_1)

pub front-Leads_9 : (w : Bytes) (b : ℕ) → (to_colon ⨾ (fold ⨾ plus IsWsp)) w → Leads w b (goto 9 b)
unfolding goto select states
front-Leads_9 w b h =
    switch_cases (Leads w b) case_9 b
      ((λ e. moves (at_9 (⨾_snoc b w (λ v. ⨾_snoc b v (plus-snoc IsWsp b (inl e))) h)))
        ▸ (λ e. moves (at_9 (⨾_snoc b w (λ v. ⨾_snoc b v (plus-snoc IsWsp b (inr e))) h)))
        ▸ (λ e. seen_c w b (inl e))
        ▸ (λ e. seen_c w b (inr e))
        ▸ (λ d.
            moves (at_10 (number_begins (fold ⨾ plus IsWsp) b w (λ v m. inr (fold-lws v m)) h d)))
        ▸ none_left)
      (moves at_1)
