-- ===== src/Decoder/Correlator/Ends.antt =====
-- decoder/correlator.go: `correlateNG` and `correlateRTCP` end.
use heplify.Common.{ℕ, Option, none, some, Option-cases, Bool-cases, inl, inr}
use heplify.Common.Bytes.{Bytes, bytes_eq}
use heplify.Common.Gives.{returns, fails, panics, Gives-of-ne_stuck, Gives-cases, Ends, Ends-bind}
use heplify.Protos.Rtcp.Packet.{RtcpPacket}
use heplify.Protos.Rtcp.Bounds.{parse_rtcp-ne-stuck}
use heplify.Decoder.Ng.{Value, Entries, integer, list, dictionary, text, entry, end}
use heplify.Decoder.Ng.Total.{unmarshal_ng-ne-stuck}
use heplify.Decoder.Correlator.Search.{call_id_key, ssrc_key}
use heplify.Decoder.Correlator.Cache.{Cache}
use heplify.Decoder.Correlator.Rtcp.{correlate_rtcp}
use heplify.Decoder.Correlator.Log.{keep_call_id, reply_to, visit, correlate_ng}

module _ (cache : Cache) (json : Value → Option Bytes) (cookie : Bytes) where
  keep_call_id-Ends : (v : Value) (sip : cache.Store) → Ends (keep_call_id cache json cookie v sip)
  unfolding keep_call_id
  keep_call_id-Ends (text call_id) sip = returns tt
  keep_call_id-Ends (integer i) sip = panics
  keep_call_id-Ends (list vs) sip = panics
  keep_call_id-Ends (dictionary es) sip = panics

  visit-Ends : (es : Entries) (sip : cache.Store) → Ends (visit cache json cookie es sip)
  unfolding visit
  visit-Ends end sip = returns tt
  visit-Ends (entry k v es) sip = elim (Bool-cases (bytes_eq k call_id_key)) [
    | inl e ↦ elim (Gives-cases (keep_call_id-Ends v sip)) [
      | inl (some sip', e', u) ↦ rw (e, e') (visit-Ends es sip')
      | inl (none, e', u) ↦ rw (e, e') (returns tt)
      | inr (inl (x, e')) ↦ rw (e, e') fails
      | inr (inr e') ↦ rw (e, e') panics
    ]
    | inr e ↦ elim (Bool-cases (bytes_eq k ssrc_key)) [
      | inl e1 ↦ elim (Option-cases (reply_to cache json cookie v sip)) [
        | inl e' ↦ rw (e, e1, e') (visit-Ends es sip)
        | inr (r, e') ↦ rw (e, e1, e') (returns tt)
      ]
      | inr e1 ↦ rw (e, e1) (visit-Ends es sip)
    ]
  ]

pub correlate_ng-Ends :
    (cache : Cache) (json : Value → Option Bytes) (spare payload : Bytes) (sip : cache.Store)
    → Ends (correlate_ng cache json spare payload sip)
unfolding correlate_ng
correlate_ng-Ends cache json spare payload sip =
    elim (Gives-cases (Gives-of-ne_stuck _ (unmarshal_ng-ne-stuck spare payload))) [
      | inl ((cookie, dictionary es), e, u) ↦
          rw (correlate_ng, e) (visit-Ends cache json cookie es sip)
      | inl ((cookie, integer i), e, u) ↦ rw (correlate_ng, e) (returns tt)
      | inl ((cookie, list vs), e, u) ↦ rw (correlate_ng, e) (returns tt)
      | inl ((cookie, text t), e, u) ↦ rw (correlate_ng, e) (returns tt)
      | inr (inl (x, e)) ↦ rw (correlate_ng, e) (returns tt)
      | inr (inr e) ↦ rw (correlate_ng, e) panics
    ]

pub correlate_rtcp-Ends :
    (cache : Cache) (json : RtcpPacket → Option Bytes) (ip : Bytes) (port : ℕ) (payload : Bytes)
    (sdp rtcp : cache.Store)
    → Ends (correlate_rtcp cache json ip port payload sdp rtcp)
unfolding correlate_rtcp
correlate_rtcp-Ends cache json ip port payload sdp rtcp =
    Ends-bind (Gives-of-ne_stuck _ (parse_rtcp-ne-stuck json payload)) (λ v. returns tt)
