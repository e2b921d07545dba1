-- ===== src/Decoder/Machine/Runs.antt =====
-- decoder/machine.go: the scanner on concrete headers.
use heplify.Common.{[], ◌∷◌, some, none, ◌≡◌, refl, sym, ◌∙◌}
use mathlib.Core.Path.{subst}
use heplify.Common.Bytes.{Bytes}
use heplify.Decoder.Machine.Labels.{choose}
use heplify.Decoder.Machine.Scan.{
  Scan, states, select, goto, marked, with_cseq, arrive, step, exec, parse_cseq,
}
use heplify.Decoder.Machine.Contract.{Selected, Answers, parse_cseq-Answers}
use heplify.Decoder.Machine.Unique.{parse_cseq-selects}

-- "CSeq: 1 BYE", a line break, and "x"
abbrev bye : Bytes
bye = 66 ∷ 89 ∷ 69 ∷ []

abbrev bye_line : Bytes
bye_line = 67 ∷ 83 ∷ 101 ∷ 113 ∷ 58 ∷ 32 ∷ 49 ∷ 32 ∷ 66 ∷ 89 ∷ 69 ∷ 13 ∷ 10 ∷ 120 ∷ []

-- "cCSEQ:1", a folded line, and "PRACK" with a carriage return alone
abbrev folded_line : Bytes
folded_line = 99 ∷ 67 ∷ 83 ∷ 69 ∷ 81 ∷ 58 ∷ 49 ∷ 13 ∷ 10 ∷ 32 ∷ 80 ∷ 82 ∷ 65 ∷ 67 ∷ 75 ∷ 13 ∷ []

-- "CSeq: 1 PING" and a line break
abbrev unknown_line : Bytes
unknown_line = 67 ∷ 83 ∷ 101 ∷ 113 ∷ 58 ∷ 32 ∷ 49 ∷ 32 ∷ 80 ∷ 73 ∷ 78 ∷ 71 ∷ 13 ∷ 10 ∷ []

parse_bye : parse_cseq bye_line ≡ some (record { cs = 0; p = 13; mark = 8; cseq = some bye })
unfolding parse_cseq exec step arrive with_cseq marked goto choose select states
parse_bye = refl

parse_folded :
    parse_cseq folded_line
    ≡ some (record { cs = 18; p = 16; mark = 10; cseq = some (80 ∷ 82 ∷ 65 ∷ 67 ∷ 75 ∷ []) })
unfolding parse_cseq exec step arrive with_cseq marked goto choose select states
parse_folded = refl

parse_unknown : parse_cseq unknown_line ≡ some (record { cs = 1; p = 14; mark = 8; cseq = none })
unfolding parse_cseq exec step arrive with_cseq marked goto choose select states
parse_unknown = refl

parse_cseq-Answers_example :
    (s : Scan) × (parse_cseq unknown_line ≡ some s) × Answers unknown_line s.cseq
parse_cseq-Answers_example = parse_cseq-Answers unknown_line

bye_line-Selected : Selected bye_line bye
bye_line-Selected =
    let (s, e, a) = parse_cseq-Answers bye_line in
    let both : some s ≡ some (record { cs = 0; p = 13; mark = 8; cseq = some bye }) =
      sym e ∙ parse_bye in
    let same : s.cseq ≡ some bye = cc in subst (Answers bye_line) same a

parse_cseq-selects_example : (s : Scan) × (parse_cseq bye_line ≡ some s) × (s.cseq ≡ some bye)
parse_cseq-selects_example = parse_cseq-selects bye_line bye bye_line-Selected
