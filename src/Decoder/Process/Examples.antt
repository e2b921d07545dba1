-- ===== src/Decoder/Process/Examples.antt =====
-- decoder/decoder.go: `Process` on whole frames.
use heplify.Common.{
  ◌+◌, ◌≡◌, ◌≢◌, refl, stuck, arith, true, false, sym, ◌∙◌, [], ◌∷◌, none, some, ok, drop,
}
use mathlib.Core.Path.{subst}
use heplify.Common.Bytes.{Bytes, bytes_eq}
use heplify.Decoder.Machine.Labels.{choose}
use heplify.Decoder.Machine.Scan.{
  Scan, states, select, goto, marked, with_cseq, arrive, step, exec, parse_cseq,
}
use heplify.Decoder.Machine.Grammar.{one_of}
use heplify.Decoder.Machine.Contract.{Answers, parse_cseq-Answers}
use heplify.Decoder.Process.Capture.{Agent, new_decoder}
use heplify.Decoder.Process.Front.{
  is_wanted, check_duplicate, check_wanted, check_payload, check_method, passes, process,
}
use heplify.Ownlayers.Sip.Words.{to_upper}
use heplify.Decoder.Process.Filters.{IsUndecoded, dropped, process_discards}
use heplify.Decoder.Process.Whole.{Passed, process-Passed}
use heplify.Decoder.Process.Total.{process-ne-stuck}
use heplify.Decoder.Process.Repeats.{aged, process_repeated}
use heplify.Decoder.Process.Sample.{
  outside_timed, timed_later, timed-Expires, outside, settings, info, agent, bye_frame, bare_frame,
  sent, counted, bye_sent,
}

abbrev bye_scan : Scan
bye_scan = record { cs = 71; p = 55; mark = 50; cseq = some (66 ∷ 89 ∷ 69 ∷ []) }

parse_bye_frame : parse_cseq bye_frame ≡ some bye_scan
unfolding parse_cseq exec step arrive with_cseq marked goto choose select states
parse_bye_frame = refl

abbrev bare_scan : Scan
bare_scan = record { cs = 1; p = 44; mark = 0; cseq = none }

parse_bare_frame : parse_cseq bare_frame ≡ some bare_scan
unfolding parse_cseq exec step arrive with_cseq marked goto choose select states
parse_bare_frame = refl

-- The answer that a computed scan gives.
answered : (msg : Bytes) (r : Scan) → parse_cseq msg ≡ some r → Answers msg r.cseq
answered msg r run =
    let (s, e, a) = parse_cseq-Answers msg in
    let both : some s ≡ some r = sym e ∙ run in
    let same : s.cseq ≡ r.cseq = cc in subst (Answers msg) same a

-- A frame without a CSeq line, which deduplication remembers before it is dropped.
process_discards_example :
    (process outside (settings true) [] bare_frame info (agent true)
      ≡ ok (
        none,
        dropped outside none (check_payload outside (settings true) bare_frame (agent true)),
      ))
    × IsUndecoded outside
        (agent true)
        (dropped outside none (check_payload outside (settings true) bare_frame (agent true)))
unfolding new_decoder one_of to_upper bytes_eq
process_discards_example =
    process_discards outside (settings true) [] bare_frame info (agent true) none refl
      (answered bare_frame bare_scan parse_bare_frame) refl

process-Passed_example :
    Passed outside (settings false) bye_frame (agent false) (some (66 ∷ 89 ∷ 69 ∷ [])) info sent
process-Passed_example =
    process-Passed outside (settings false) [] bye_frame info (agent false)
      (counted (record (agent false) { cseq = some (66 ∷ 89 ∷ 69 ∷ []) }))
      (some (66 ∷ 89 ∷ 69 ∷ [])) sent (answered bye_frame bye_scan parse_bye_frame) bye_sent

abbrev fresh_agent : Agent outside_timed
fresh_agent = new_decoder outside_timed (settings true) [] [] []

-- After the frame without a CSeq line, which is remembered for a second and then dropped.
abbrev remembering : Agent outside_timed
remembering = record fresh_agent {
  inner = record (fresh_agent.inner) { sip = (1 ∷ 2 ∷ [], ([], 1)) ∷ [] };
  cseq = none;
}

bare_remembered :
    process outside_timed (settings true) [] bare_frame info fresh_agent ≡ ok (none, remembering)
unfolding process check_method check_payload check_wanted check_duplicate is_wanted new_decoder
    one_of to_upper bytes_eq parse_cseq exec step arrive with_cseq marked goto choose select states
bare_remembered = refl

-- The same frame but for its first byte, at once and two seconds later.
process_repeated_example :
    (process outside_timed
        (settings true)
        []
        (9 ∷ drop 1 bare_frame)
        info
        (aged outside_timed timed_later 0 remembering)
      ≡ ok (
        none,
        record (aged outside_timed timed_later 0 remembering) {
          dup_count = remembering.dup_count + 1;
        },
      ))
    × (b : Agent outside_timed) × (check_duplicate outside_timed
          (settings true)
          (drop 42 (9 ∷ drop 1 bare_frame))
          (aged outside_timed timed_later 2 remembering)
        ≡ passes tt b)
    × (b.dup_count ≡ remembering.dup_count)
unfolding new_decoder
process_repeated_example =
    process_repeated outside_timed timed_later (settings true) [] [] bare_frame
      (9 ∷ drop 1 bare_frame) info info fresh_agent remembering ((1 ∷ 2 ∷ [], ([], 1)) ∷ []) none 2
      timed-Expires refl refl refl refl refl refl refl bare_remembered (omega arith)

process-ne-stuck_example : process outside (settings true) [] bye_frame info (agent true) ≢ stuck
process-ne-stuck_example = process-ne-stuck outside (settings true) [] bye_frame info (agent true)
