-- ===== src/Decoder/Correlator/Log.antt =====
-- decoder/correlator.go: `correlateLOG` and `correlateNG`.
use heplify.Common.{
  ◌&&◌, Option, none, some, length, drop, leb, if◌then◌else◌, Outcome, ok, err, panic, stuck,
}
use heplify.Common.Bytes.{Bytes, bytes_eq}
use heplify.Decoder.Ng.{Value, text, dictionary, Entries, end, entry, unmarshal_ng}
use heplify.Decoder.Correlator.Search.{
  index, at_least, slice, id_mark, space, bracket_open, port_mark, bracket_close, call_id_key,
  ssrc_key,
}
use heplify.Decoder.Correlator.Cache.{Cache}
use heplify.Decoder.Correlator.Rtcp.{Reply, no_reply}

abbrev found : Bytes → Bytes → Reply
found payload call_id = record { payload = some payload; cid = some call_id; proto_type = 100 }

-- The line from "ID=" on.
unfoldable pub log_id : Bytes → Bytes → Reply
log_id payload rest = elim (at_least 4 (index space rest)) [
  | some e ↦ found payload (slice 3 e rest)
  | none ↦
      if leb 8 (length rest) && leb (length rest) 64 then found payload (drop 3 rest) else no_reply
]

abbrev within : Bytes → Bytes → Reply
within payload call_id =
    if leb 8 (length call_id) && leb (length call_id) 64 then found payload call_id else no_reply

-- The line from ": [" on.
unfoldable pub log_bracket : Bytes → Bytes → Reply
log_bracket payload rest = elim (at_least 8 (index port_mark rest)) [
  | some e ↦ within payload (slice 3 e rest)
  | none ↦ elim (at_least 4 (index bracket_close rest)) [
    | some e ↦ within payload (slice 3 e rest)
    | none ↦ no_reply
  ]
]

-- `correlateLOG`
unfoldable pub correlate_log : Bytes → Reply
correlate_log payload = elim (at_least 1 (index id_mark payload)) [
  | some at ↦ log_id payload (drop at payload)
  | none ↦ elim (at_least 1 (index bracket_open payload)) [
    | some at ↦ log_bracket payload (drop at payload)
    | none ↦ no_reply
  ]
]

module _ (cache : Cache) (json : Value → Option Bytes) (cookie : Bytes) where
  -- `d.SIPCache.Set(cookie, callid, 10)`; the type assertion panics on a value that is no string.
  unfoldable pub keep_call_id : Value → cache.Store → Outcome ⊥ (Option cache.Store)
  keep_call_id (text call_id) sip = ok (cache.set cookie call_id 10 sip)
  keep_call_id v sip = panic

  -- The reply to the statistics, `none` to go on. encoding/json is the parameter `json`.
  unfoldable pub reply_to : Value → cache.Store → Option Reply
  reply_to v sip = elim (json v) [
    | none ↦ some no_reply
    | some stats ↦ elim (cache.get cookie sip) [
      | some call_id ↦ some (found stats call_id)
      | none ↦ none
    ]
  ]

  abbrev go_on :
      Option Reply → cache.Store → Outcome ⊥ (Reply × cache.Store) → Outcome ⊥ (Reply × cache.Store)
  go_on none sip rest = rest
  go_on (some r) sip rest = ok (r, sip)

  abbrev when_kept :
      Outcome ⊥ (Option cache.Store)
      → cache.Store
      → (cache.Store → Outcome ⊥ (Reply × cache.Store))
      → Outcome ⊥ (Reply × cache.Store)
  when_kept (ok (some sip')) sip k = k sip'
  when_kept (ok none) sip k = ok (no_reply, sip)
  when_kept (err e) sip k = err e
  when_kept panic sip k = panic
  when_kept stuck sip k = stuck

  -- The loop over the dictionary. Go visits the entries in any order; here it is the list's.
  unfoldable pub visit : Entries → cache.Store → Outcome ⊥ (Reply × cache.Store)
  visit end sip = ok (no_reply, sip)
  visit (entry k v es) sip =
      let rest = visit es in
      if bytes_eq k call_id_key
      then when_kept (keep_call_id v sip) sip rest
      else if bytes_eq k ssrc_key
      then go_on (reply_to v sip) sip (rest sip)
      else rest sip

-- `correlateNG`: the reply, and the SIP cache afterwards.
unfoldable pub correlate_ng :
    (cache : Cache)
    → (Value → Option Bytes)
    → Bytes
    → Bytes
    → cache.Store
    → Outcome ⊥ (Reply × cache.Store)
correlate_ng cache json spare payload sip = elim (unmarshal_ng spare payload) [
  | ok (cookie, dictionary es) ↦ visit cache json cookie es sip
  | ok (cookie, v) ↦ ok (no_reply, sip)
  | err e ↦ ok (no_reply, sip)
  | panic ↦ panic
  | stuck ↦ stuck
]
