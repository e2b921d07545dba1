-- ===== src/Decoder/Correlator/Lines.antt =====
-- decoder/correlator.go: the Call-ID of a log line is a part of the line, and the order in which
-- `correlateNG` meets the entries of a message matters.
use heplify.Common.{
  ℕ, ◌<◌, ◌≤◌, ◌≡◌, Bool, true, false, ◌&&◌, [], ◌∷◌, ◌++◌, Option, none, some, length, take, drop,
  take-append-drop, length-take, length-drop, leb, if◌then◌else◌, ok, ap, ◌∙◌, sym, arith,
  Bool-cases, Option-cases, inl, inr, append_assoc, append-nil, ◌⊎◌,
}
use heplify.Common.Bytes.{Bytes, bytes_eq}
use heplify.Decoder.Ng.{Value, text, end, entry}
use heplify.Decoder.Correlator.Search.{
  has_prefix, index, at_least, slice, id_mark, space, bracket_open, port_mark, bracket_close,
  call_id_key, ssrc_key,
}
use heplify.Decoder.Correlator.Cache.{Cache, KeepsSet}
use heplify.Decoder.Correlator.Rtcp.{Reply, no_reply}
use heplify.Decoder.Correlator.Log.{
  log_id, log_bracket, correlate_log, keep_call_id, reply_to, visit,
}

-- Nothing, or the whole line and a part of it that is not empty.
abbrev pub IsPart : Bytes → Bytes → Type 0
IsPart part whole =
    (front : Bytes) × (back : Bytes) × (whole ≡ front ++ (part ++ back)) × (0 < length part)

pub data IsAnswer (line : Bytes) : Reply → Type 0 where
  nothing : IsAnswer line no_reply
  answer :
      (call_id : Bytes)
      → IsPart call_id line
      → IsAnswer line (record { payload = some line; cid = some call_id; proto_type = 100 })

index_le : (pattern s : Bytes) (n : ℕ) → index pattern s ≡ some n → n ≤ length s
unfolding index
index_le pattern [] n e = elim (Bool-cases (has_prefix pattern [])) [
  | inl here ↦ grind (arith, here, e)
  | inr other ↦ grind (arith, other, e)
]
index_le pattern (b ∷ s) n e = elim (Bool-cases (has_prefix pattern (b ∷ s))) [
  | inl here ↦ grind (arith, here, e)
  | inr other ↦ elim (Option-cases (index pattern s)) [
    | inl never ↦ grind (arith, other, never, e)
    | inr (m, found) ↦ grind (arith, other, found, e, index_le pattern s m found)
  ]
]

at_least-index :
    (least : ℕ) (pattern s : Bytes) (n : ℕ)
    → at_least least (index pattern s) ≡ some n
    → (least ≤ n) × (n ≤ length s)
at_least-index least pattern s n e = elim (Option-cases (index pattern s)) [
  | inl never ↦ grind (arith, never, e)
  | inr (m, found) ↦ grind (arith, found, e, index_le pattern s m found)
]

-- A slice of what lies behind a position is a part of the whole.
slice-IsPart :
    (line : Bytes) (at from to : ℕ)
    → from < to
    → to ≤ length (drop at line)
    → IsPart (slice from to (drop at line)) line
slice-IsPart line at from to lt inside =
    let rest = drop at line in
    let cut : take from (take to rest) ++ (slice from to rest ++ drop to rest) ≡ rest =
      sym (append_assoc (take from (take to rest)) (slice from to rest) (drop to rest))
      ∙ ap (λ p. p ++ drop to rest) (take-append-drop from (take to rest))
      ∙ take-append-drop to rest in
    (
      take at line ++ take from (take to rest),
      drop to rest,
      sym (
          append_assoc (take at line) (take from (take to rest))
            (slice from to rest ++ drop to rest)
          ∙ ap (◌++◌ (take at line)) cut
          ∙ take-append-drop at line),
      omega (arith, length-drop from (take to rest), length-take to rest),
    )

drop-IsPart :
    (line : Bytes) (at : ℕ) → 8 ≤ length (drop at line) → IsPart (drop 3 (drop at line)) line
drop-IsPart line at long =
    let rest = drop at line in
    (
      take at line ++ take 3 rest,
      [],
      sym (
          append_assoc (take at line) (take 3 rest) (drop 3 rest ++ [])
          ∙ ap (λ p. take at line ++ (take 3 rest ++ p)) (append-nil (drop 3 rest))
          ∙ ap (◌++◌ (take at line)) (take-append-drop 3 rest)
          ∙ take-append-drop at line),
      omega (arith, length-drop 3 rest),
    )

chosen :
    (line : Bytes) (b : Bool) (r : Reply)
    → IsAnswer line r
    → IsAnswer line (if b then r else no_reply)
chosen line true r h = h
chosen line false r h = nothing

log_id-IsAnswer : (line : Bytes) (at : ℕ) → IsAnswer line (log_id line (drop at line))
unfolding log_id
log_id-IsAnswer line at = elim (Option-cases (at_least 4 (index space (drop at line)))) [
  | inr (e, found) ↦
      let (lo, hi) = at_least-index 4 space (drop at line) e found in
      rw (log_id, found) (answer _ (slice-IsPart line at 3 e (omega arith) hi))
  | inl never ↦
      rw (log_id, never)
        (whole (Bool-cases (leb 8 (length (drop at line)) && leb (length (drop at line)) 64)))
]
  where
    rest : Bytes
    rest = drop at line

    whole :
        ((leb 8 (length rest) && leb (length rest) 64) ≡ true)
          ⊎ ((leb 8 (length rest) && leb (length rest) 64) ≡ false)
        → IsAnswer line (
            if leb 8 (length rest) && leb (length rest) 64
            then record { payload = some line; cid = some (drop 3 rest); proto_type = 100 }
            else no_reply)
    whole (inl fits) = rw fits (answer _ (drop-IsPart line at (ground (arith, fits))))
    whole (inr other) = rw other nothing

log_bracket-IsAnswer : (line : Bytes) (at : ℕ) → IsAnswer line (log_bracket line (drop at line))
unfolding log_bracket
log_bracket-IsAnswer line at = elim (Option-cases (at_least 8 (index port_mark (drop at line)))) [
  | inr (e, found) ↦
      let (lo, hi) = at_least-index 8 port_mark (drop at line) e found in
      rw (log_bracket, found)
        (chosen line _ _ (answer _ (slice-IsPart line at 3 e (omega arith) hi)))
  | inl never ↦ elim (Option-cases (at_least 4 (index bracket_close (drop at line)))) [
    | inr (e, found) ↦
        let (lo, hi) = at_least-index 4 bracket_close (drop at line) e found in
        rw (log_bracket, never, found)
          (chosen line _ _ (answer _ (slice-IsPart line at 3 e (omega arith) hi)))
    | inl neither ↦ rw (log_bracket, never, neither) nothing
  ]
]

-- `correlateLOG` answers nothing, or the whole line, the protocol number 100 and a Call-ID that is a
-- part of the line and not empty.
pub correlate_log-IsAnswer : (line : Bytes) → IsAnswer line (correlate_log line)
unfolding correlate_log
correlate_log-IsAnswer line = elim (Option-cases (at_least 1 (index id_mark line))) [
  | inr (at, found) ↦ rw (correlate_log, found) (log_id-IsAnswer line at)
  | inl never ↦ elim (Option-cases (at_least 1 (index bracket_open line))) [
    | inr (at, found) ↦ rw (correlate_log, never, found) (log_bracket-IsAnswer line at)
    | inl neither ↦ rw (correlate_log, never, neither) nothing
  ]
]

-- A message that carries both the Call-ID and the statistics, for a cookie that the cache does not
-- hold: the statistics are answered with the Call-ID if the loop meets the Call-ID first, and are lost
-- if it meets the statistics first. The cache holds the Call-ID afterwards either way.
visit_order :
    (cache : Cache) (json : Value → Option Bytes) (cookie call_id stats : Bytes) (v : Value)
    (sip sip' : cache.Store)
    → KeepsSet cache
    → json v ≡ some stats
    → cache.get cookie sip ≡ none
    → cache.set cookie call_id 10 sip ≡ some sip'
    → (visit cache json cookie (entry call_id_key (text call_id) (entry ssrc_key v end)) sip
        ≡ ok (record { payload = some stats; cid = some call_id; proto_type = 100 }, sip'))
      × (visit cache json cookie (entry ssrc_key v (entry call_id_key (text call_id) end)) sip
          ≡ ok (no_reply, sip'))
unfolding visit keep_call_id reply_to bytes_eq
visit_order cache json cookie call_id stats v sip sip' keeps printed absent kept =
    let hit = keeps cookie call_id 10 sip sip' kept in
    (rw (kept, reply_to, printed, hit), rw (reply_to, printed, absent, kept))
