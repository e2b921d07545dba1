-- ===== src/Decoder/Machine/Front/Moves.antt =====
-- decoder/machine.go, states 1 to 14: where each byte leads.
use heplify.Common.{ℕ, inl, inr}
use heplify.Common.Bytes.{Bytes}
use heplify.Decoder.Machine.Walk.{switch_cases, ◌▸◌, none_left}
use heplify.Decoder.Machine.Tables.Header.{case_1}
use heplify.Decoder.Machine.Scan.{states, select, goto}
use heplify.Decoder.Machine.Front.Stages.{
  Front, at_1, at_2, at_3, at_4, at_5, at_6, at_7, at_8, at_9, at_10, at_11, at_12, at_13, at_14,
  Leads, moves, seen_c,
}
use heplify.Decoder.Machine.Front.Name.{
  front-Leads_2, front-Leads_3, front-Leads_4, front-Leads_5, front-Leads_6, front-Leads_7,
  front-Leads_8, front-Leads_9,
}
use heplify.Decoder.Machine.Front.Number.{
  front-Leads_10, front-Leads_11, front-Leads_12, front-Leads_13, front-Leads_14,
}

pub Front-Leads : (n : ℕ) (w : Bytes) (b : ℕ) → Front n w → Leads w b (goto n b)
unfolding goto select states
Front-Leads n w b at_1 =
    switch_cases (Leads w b) case_1 b
      ((λ e. seen_c w b (inl e)) ▸ (λ e. seen_c w b (inr e)) ▸ none_left) (moves at_1)
Front-Leads n w b (at_2 h) = front-Leads_2 w b h
Front-Leads n w b (at_3 h) = front-Leads_3 w b h
Front-Leads n w b (at_4 h) = front-Leads_4 w b h
Front-Leads n w b (at_5 h) = front-Leads_5 w b h
Front-Leads n w b (at_6 h) = front-Leads_6 w b h
Front-Leads n w b (at_7 h) = front-Leads_7 w b h
Front-Leads n w b (at_8 h) = front-Leads_8 w b h
Front-Leads n w b (at_9 h) = front-Leads_9 w b h
Front-Leads n w b (at_10 h) = front-Leads_10 w b h
Front-Leads n w b (at_11 h) = front-Leads_11 w b h
Front-Leads n w b (at_12 h) = front-Leads_12 w b h
Front-Leads n w b (at_13 h) = front-Leads_13 w b h
Front-Leads n w b (at_14 h) = front-Leads_14 w b h
