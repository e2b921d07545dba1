-- ===== src/Decoder/Correlator/Sdp.antt =====
-- decoder/correlator.go: `cacheSDPIPPort`.
use heplify.Common.{ℕ, ◌+◌, ◌%◌, [], ◌∷◌, ◌++◌, Option, none, some, drop}
use heplify.Common.Bytes.{Bytes}
use heplify.Decoder.Correlator.Search.{
  index, at_least, field, line_end, connection, audio, rtp_mark, rtcp_attribute, call_id_spaced,
  call_id_tight, call_id_short,
}
use heplify.Decoder.Correlator.Cache.{Cache}

infixl 5 ◌>>=◌
abbrev ◌>>=◌ : {A B : Type 0} → Option A → (A → Option B) → Option B
none >>= k = none
some a >>= k = k a

-- `ipPort.Bytes()[lastNum] = byte(uint32(ipPort.Bytes()[lastNum]) + 1)`
unfoldable pub increment_last : Bytes → Bytes
increment_last [] = []
increment_last (b ∷ []) = (b + 1) % 256 ∷ []
increment_last (b ∷ c ∷ rest) = b ∷ increment_last (c ∷ rest)

-- The buffer ipPort behind the address: the port of an RTCP attribute, or one more than the audio port.
unfoldable pub add_port : Bytes → ℕ → Bytes → Option Bytes
add_port payload port_at ip = elim (at_least 1 (index rtcp_attribute payload)) [
  | some at ↦ (field 7 11 line_end (drop at payload) >>= λ port. some (ip ++ port))
  | none ↦
      (field 8 12 rtp_mark (drop port_at payload) >>= λ port. some (increment_last (ip ++ port)))
]

unfoldable pub find_call_id : Bytes → Option Bytes
find_call_id payload = elim (at_least 1 (index call_id_spaced payload)) [
  | some at ↦ field 9 10 line_end (drop at payload)
  | none ↦ elim (at_least 1 (index call_id_tight payload)) [
    | some at ↦ field 8 9 line_end (drop at payload)
    | none ↦ elim (at_least 1 (index call_id_short payload)) [
      | some at ↦ field 3 4 line_end (drop at payload)
      | none ↦ none
    ]
  ]
]

-- The key and the value that are put into the cache; `none` where the function returns before.
unfoldable pub sdp_entry : Bytes → Option (Bytes × Bytes)
sdp_entry payload = do
  ip_at ← at_least 1 (index connection payload)
  port_at ← at_least 1 (index audio payload)
  ip ← field 9 16 line_end (drop ip_at payload)
  ip_port ← add_port payload port_at ip
  call_id ← find_call_id payload
  some (ip_port, call_id)

abbrev pub or_else {ℓ} : {A : Type ℓ} → A → Option A → A
or_else a none = a
or_else a (some b) = b

-- `cacheSDPIPPort`; an error of the cache is only logged.
unfoldable pub cache_sdp_ip_port : (cache : Cache) → Bytes → cache.Store → cache.Store
cache_sdp_ip_port cache payload sdp = elim (sdp_entry payload) [
  | none ↦ sdp
  | some (k, call_id) ↦ or_else sdp (cache.set k call_id 120 sdp)
]
