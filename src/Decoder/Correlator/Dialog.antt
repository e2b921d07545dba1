-- ===== src/Decoder/Correlator/Dialog.antt =====
-- decoder/correlator.go: RTCP reaches the dialog whose SDP announced it.
use heplify.Common.{
  ℕ, ◌≡◌, refl, Bool, true, false, ◌&&◌, ◌++◌, Option, none, some, if◌then◌else◌, ok, ◌∙◌, ap,
}
use heplify.Common.Bytes.{Bytes}
use heplify.Decoder.Ng.Numbers.{decimal}
use heplify.Protos.Rtcp.Packet.{RtcpPacket}
use heplify.Protos.Rtcp.Parse.{Parsed, parse_rtcp}
use heplify.Decoder.Correlator.Cache.{Cache, KeepsSet}
use heplify.Decoder.Correlator.Sdp.{sdp_entry, cache_sdp_ip_port}
use heplify.Decoder.Correlator.Rtcp.{
  no_reply, is_some, is_none, remembered, look_up, correlate_rtcp, bytes_of,
}

module _ (cache : Cache) (keeps : KeepsSet cache) (json : RtcpPacket → Option Bytes) where
  -- A packet that is parsed to some JSON is looked up.
  correlate_rtcp-parsed :
      (src_ip : Bytes) (src_port : ℕ) (payload : Bytes) (p : Parsed) (b : Bytes)
      (sdp rtcp : cache.Store)
      → parse_rtcp json payload ≡ ok p
      → p.rtcp_pkt ≡ some b
      → correlate_rtcp cache json src_ip src_port payload sdp rtcp
        ≡ ok (look_up cache (src_ip ++ decimal src_port) p sdp rtcp)
  unfolding correlate_rtcp
  correlate_rtcp-parsed src_ip src_port payload p b sdp rtcp parsed some_json = rw parsed (
      ap
        (λ c.
          ok
            (if c then (no_reply, rtcp) else look_up cache (src_ip ++ decimal src_port) p sdp rtcp))
        (whatever (is_some p.info) (is_none p.rtcp_pkt) (ap is_none some_json)))
    where
      whatever : (x y : Bool) → y ≡ false → (x && y) ≡ false
      whatever true y e = e
      whatever false y e = refl

  -- Once `cacheSDPIPPort` has put the address and port of an SDP body into the cache, `correlateRTCP`
  -- answers the first RTCP packet of a new SSRC from there with the Call-ID, and remembers the SSRC.
  pub correlate_rtcp-cache_sdp_ip_port :
      (message ip : Bytes) (port : ℕ) (call_id : Bytes) (packet k b : Bytes) (p : Parsed)
      (sdp sdp' rtcp rtcp' : cache.Store)
      → sdp_entry message ≡ some (ip ++ decimal port, call_id)
      → cache.set (ip ++ decimal port) call_id 120 sdp ≡ some sdp'
      → parse_rtcp json packet ≡ ok p
      → p.ssrc_bytes ≡ some k
      → p.rtcp_pkt ≡ some b
      → cache.get k rtcp ≡ none
      → cache.set k call_id 43200 rtcp ≡ some rtcp'
      → correlate_rtcp cache json ip port packet (cache_sdp_ip_port cache message sdp) rtcp
        ≡ ok (record { payload = some b; cid = some call_id; proto_type = 5 }, rtcp')
  unfolding cache_sdp_ip_port look_up remembered
  correlate_rtcp-cache_sdp_ip_port message ip port call_id packet k b p sdp sdp' rtcp rtcp'
        announced kept parsed ssrc some_json unknown learnt =
      let stored : cache_sdp_ip_port cache message sdp ≡ sdp' =
        rw (cache_sdp_ip_port, announced, kept) in
      let hit = keeps (ip ++ decimal port) call_id 120 sdp sdp' kept in
      let new : remembered cache p.ssrc_bytes rtcp ≡ none =
        ap (λ o. remembered cache o rtcp) ssrc ∙ unknown in
      let keyed : cache.set (bytes_of p.ssrc_bytes) call_id 43200 rtcp ≡ some rtcp' =
        ap (λ o. cache.set (bytes_of o) call_id 43200 rtcp) ssrc ∙ learnt in
      rw stored (
        correlate_rtcp-parsed ip port packet p b sdp' rtcp parsed some_json
        ∙ rw (look_up, new, hit, keyed, some_json))

  -- Once an SSRC has been put into the RTCP cache with a Call-ID, every RTCP packet of it is answered
  -- with the Call-ID, from any address and whatever the SDP cache holds.
  correlate_rtcp_again :
      (call_id k : Bytes) (rtcp rtcp' sdp : cache.Store) (src_ip : Bytes) (src_port : ℕ)
      (packet b : Bytes) (p : Parsed)
      → cache.set k call_id 43200 rtcp ≡ some rtcp'
      → parse_rtcp json packet ≡ ok p
      → p.ssrc_bytes ≡ some k
      → p.rtcp_pkt ≡ some b
      → correlate_rtcp cache json src_ip src_port packet sdp rtcp'
        ≡ ok (record { payload = some b; cid = some call_id; proto_type = 5 }, rtcp')
  unfolding look_up remembered
  correlate_rtcp_again call_id k rtcp rtcp' sdp src_ip src_port packet b p learnt parsed ssrc
        some_json =
      let hit = keeps k call_id 43200 rtcp rtcp' learnt in
      correlate_rtcp-parsed src_ip src_port packet p b sdp rtcp' parsed some_json
      ∙ rw (look_up, ssrc, hit, some_json)
