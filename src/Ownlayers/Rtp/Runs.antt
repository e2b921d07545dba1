-- ===== src/Ownlayers/Rtp/Runs.antt =====
-- ownlayers/rtp.go: concrete runs, and the theorems at concrete inputs.
use heplify.Common.{◌-◌, ◌*◌, ◌≤◌, ◌<◌, ◌≡◌, ◌↔◌, refl, [], ◌∷◌, ok, err, arith}
use heplify.Ownlayers.Rtp.{not_valid, decode_rest, decode_from_bytes, decode_rtp}
use heplify.Ownlayers.Rtp.Accepts.{decode_rtp_iff}

-- A packet of a talkspurt's start has the marker bit.
marker_refused :
    (decode_rtp (0x80 ∷ 0x88 ∷ 0 ∷ 1 ∷ 0 ∷ 0 ∷ 0 ∷ 160 ∷ 1 ∷ 2 ∷ 3 ∷ 4 ∷ 0xd5 ∷ [])).1
    ≡ err not_valid
unfolding decode_rtp decode_from_bytes decode_rest
marker_refused = refl

decode_rtp_iff_example :
    ((decode_rtp
        (0x81 ∷ 0x08 ∷ 0 ∷ 1 ∷ 0 ∷ 0 ∷ 0 ∷ 160 ∷ 1 ∷ 2 ∷ 3 ∷ 4 ∷ 5 ∷ 6 ∷ 7 ∷ 8 ∷ 0xd5 ∷ [])).1
      ≡ ok [])
    ↔ ((128 ≤ 0x81) × (0x81 < 144) × (8 < 128) × (4 * (0x81 - 128) < 5))
decode_rtp_iff_example =
    decode_rtp_iff 0x81 0x08 0 1 0 0 0 160 1 2 3 4 (5 ∷ 6 ∷ 7 ∷ 8 ∷ 0xd5 ∷ []) (omega arith)
      (omega arith)
