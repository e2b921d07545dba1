-- ===== src/Decoder/Correlator/Rtcp.antt =====
-- decoder/correlator.go: `correlateRTCP`.
use heplify.Common.{
  ℕ, Bool, true, false, ◌&&◌, [], ◌++◌, Option, none, some, if◌then◌else◌, ok, ◌>>=◌,
}
use heplify.Common.Bytes.{Bytes}
use heplify.Decoder.Ng.Numbers.{decimal}
use heplify.Protos.Rtcp.Packet.{RtcpPacket, Parse}
use heplify.Protos.Rtcp.Parse.{Parsed, parse_rtcp}
use heplify.Decoder.Correlator.Cache.{Cache}

-- The three results: the payload, the correlation ID and the protocol's number.
pub record Reply : Type 0 where
  pub payload : Option Bytes
  pub cid : Option Bytes
  pub proto_type : ℕ

-- `nil, nil, 0`
abbrev pub no_reply : Reply
no_reply = record { payload = none; cid = none; proto_type = 0 }

abbrev pub is_some {ℓ} : {A : Type ℓ} → Option A → Bool
is_some none = false
is_some (some a) = true

abbrev pub is_none {ℓ} : {A : Type ℓ} → Option A → Bool
is_none none = true
is_none (some a) = false

-- A nil slice as a key.
abbrev pub bytes_of : Option Bytes → Bytes
bytes_of none = []
bytes_of (some b) = b

module _ (cache : Cache) where
  -- `d.RTCPCache.Get(keyRTCP)`, if the key is not nil.
  unfoldable pub remembered : Option Bytes → cache.Store → Option Bytes
  remembered none rtcp = none
  remembered (some k) rtcp = cache.get k rtcp

  abbrev pub remember : Parsed → Option cache.Store → cache.Store → Bytes → Reply × cache.Store
  remember p none rtcp corr_id = (no_reply, rtcp)
  remember p (some rtcp') rtcp corr_id =
      (record { payload = p.rtcp_pkt; cid = some corr_id; proto_type = 5 }, rtcp')

  -- The two lookups.
  unfoldable pub look_up : Bytes → Parsed → cache.Store → cache.Store → Reply × cache.Store
  look_up key_sdp p sdp rtcp = elim (remembered p.ssrc_bytes rtcp) [
    | some corr_id ↦ (record { payload = p.rtcp_pkt; cid = some corr_id; proto_type = 5 }, rtcp)
    | none ↦ elim (cache.get key_sdp sdp) [
      | some corr_id ↦
          remember p (cache.set (bytes_of p.ssrc_bytes) corr_id 43200 rtcp) rtcp corr_id
      | none ↦ (no_reply, rtcp)
    ]
  ]

  -- `correlateRTCP`: the reply, and the RTCP cache afterwards. `src_ip` is the address as
  -- `net.IP.String` prints it, `json` is encoding/json.
  unfoldable pub correlate_rtcp :
      (RtcpPacket → Option Bytes)
      → Bytes
      → ℕ
      → Bytes
      → cache.Store
      → cache.Store
      → Parse (Reply × cache.Store)
  correlate_rtcp json src_ip src_port payload sdp rtcp = parse_rtcp json payload >>= λ p. ok (
      if is_some p.info && is_none p.rtcp_pkt
      then (no_reply, rtcp)
      else look_up (src_ip ++ decimal src_port) p sdp rtcp)
