-- ===== src/Decoder/Correlator/Runs.antt =====
-- decoder/correlator.go: concrete runs, and the theorems at concrete inputs.
use heplify.Common.{◌≡◌, refl, [], ◌∷◌, ◌++◌, some, ok}
use heplify.Common.Bytes.{put_uint32, bytes_eq}
use heplify.Decoder.Ng.Numbers.{decimal}
use heplify.Protos.Rtcp.Reports.{sections_bytes}
use heplify.Decoder.Correlator.Sdp.{cache_sdp_ip_port}
use heplify.Decoder.Correlator.Rtcp.{correlate_rtcp}
use heplify.Decoder.Correlator.Log.{correlate_log}
use heplify.Decoder.Correlator.Dialog.{correlate_rtcp-cache_sdp_ip_port}
use heplify.Decoder.Correlator.Lines.{IsAnswer, correlate_log-IsAnswer}
use heplify.Decoder.Correlator.Sample.{
  assoc, assoc-KeepsSet, message, address, message_entry, json_of, reports, parsed, parsing,
}

correlate_rtcp-cache_sdp_ip_port_example :
    correlate_rtcp assoc json_of address 4001
      (sections_bytes reports)
      (cache_sdp_ip_port assoc message [])
      []
    ≡ ok (
      record { payload = some (5 ∷ []); cid = some (97 ∷ 49 ∷ []); proto_type = 5 },
      (put_uint32 5, 97 ∷ 49 ∷ []) ∷ [],
    )
unfolding bytes_eq
correlate_rtcp-cache_sdp_ip_port_example =
    correlate_rtcp-cache_sdp_ip_port assoc assoc-KeepsSet json_of message address 4001
      (97 ∷ 49 ∷ []) (sections_bytes reports) (put_uint32 5) (5 ∷ []) parsed []
      ((address ++ decimal 4001, 97 ∷ 49 ∷ []) ∷ []) [] ((put_uint32 5, 97 ∷ 49 ∷ []) ∷ [])
      message_entry refl parsing refl refl refl refl

correlate_log-IsAnswer_example :
    IsAnswer
      (120 ∷ 32 ∷ 73 ∷ 68 ∷ 61 ∷ 97 ∷ 98 ∷ 55 ∷ 32 ∷ 121 ∷ [])
      (correlate_log (120 ∷ 32 ∷ 73 ∷ 68 ∷ 61 ∷ 97 ∷ 98 ∷ 55 ∷ 32 ∷ 121 ∷ []))
correlate_log-IsAnswer_example =
    correlate_log-IsAnswer (120 ∷ 32 ∷ 73 ∷ 68 ∷ 61 ∷ 97 ∷ 98 ∷ 55 ∷ 32 ∷ 121 ∷ [])
