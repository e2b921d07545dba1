-- ===== src/Decoder/Correlator/Search.antt =====
-- `bytes.Index` and slices, and the pieces of text that decoder/correlator.go looks for.
use heplify.Common.{
  ℕ, suc, Bool, true, false, ◌&&◌, [], ◌∷◌, Option, none, some, take, drop, ltb, ◌==◌,
  if◌then◌else◌,
}
use heplify.Common.Bytes.{Bytes}

unfoldable pub has_prefix : Bytes → Bytes → Bool
has_prefix [] s = true
has_prefix (p ∷ ps) [] = false
has_prefix (p ∷ ps) (b ∷ s) = b == p && has_prefix ps s

abbrev pub next : Option ℕ → Option ℕ
next none = none
next (some n) = some (suc n)

-- `bytes.Index(s, pattern)`, `none` for -1.
unfoldable pub index : Bytes → Bytes → Option ℕ
index pattern [] = if has_prefix pattern [] then some 0 else none
index pattern (b ∷ s) =
    let further = index pattern s in if has_prefix pattern (b ∷ s) then some 0 else next further

-- An index below the least that is wanted counts as none.
abbrev pub at_least : ℕ → Option ℕ → Option ℕ
at_least least none = none
at_least least (some n) = if ltb n least then none else some n

-- `s[from:to]`
abbrev pub slice : ℕ → ℕ → Bytes → Bytes
slice from to s = drop from (take to s)

-- The text of `rest` behind its first `skip` bytes, up to the mark.
unfoldable pub field : ℕ → ℕ → Bytes → Bytes → Option Bytes
field skip least mark rest = elim (at_least least (index mark rest)) [
  | none ↦ none
  | some e ↦ some (slice skip e rest)
]

abbrev pub line_end : Bytes
line_end = 13 ∷ 10 ∷ []

-- "c=IN IP"
abbrev pub connection : Bytes
connection = 99 ∷ 61 ∷ 73 ∷ 78 ∷ 32 ∷ 73 ∷ 80 ∷ []

-- "m=audio "
abbrev pub audio : Bytes
audio = 109 ∷ 61 ∷ 97 ∷ 117 ∷ 100 ∷ 105 ∷ 111 ∷ 32 ∷ []

-- " RTP"
abbrev pub rtp_mark : Bytes
rtp_mark = 32 ∷ 82 ∷ 84 ∷ 80 ∷ []

-- "a=rtcp:"
abbrev pub rtcp_attribute : Bytes
rtcp_attribute = 97 ∷ 61 ∷ 114 ∷ 116 ∷ 99 ∷ 112 ∷ 58 ∷ []

-- "Call-ID: ", "Call-ID:" and "i: "
abbrev pub call_id_spaced : Bytes
call_id_spaced = 67 ∷ 97 ∷ 108 ∷ 108 ∷ 45 ∷ 73 ∷ 68 ∷ 58 ∷ 32 ∷ []

abbrev pub call_id_tight : Bytes
call_id_tight = 67 ∷ 97 ∷ 108 ∷ 108 ∷ 45 ∷ 73 ∷ 68 ∷ 58 ∷ []

abbrev pub call_id_short : Bytes
call_id_short = 105 ∷ 58 ∷ 32 ∷ []

-- "ID=", " ", ": [", " port " and "]: "
abbrev pub id_mark : Bytes
id_mark = 73 ∷ 68 ∷ 61 ∷ []

abbrev pub space : Bytes
space = 32 ∷ []

abbrev pub bracket_open : Bytes
bracket_open = 58 ∷ 32 ∷ 91 ∷ []

abbrev pub port_mark : Bytes
port_mark = 32 ∷ 112 ∷ 111 ∷ 114 ∷ 116 ∷ 32 ∷ []

abbrev pub bracket_close : Bytes
bracket_close = 93 ∷ 58 ∷ 32 ∷ []

-- "call-id" and "SSRC", the keys of an NG dictionary.
abbrev pub call_id_key : Bytes
call_id_key = 99 ∷ 97 ∷ 108 ∷ 108 ∷ 45 ∷ 105 ∷ 100 ∷ []

abbrev pub ssrc_key : Bytes
ssrc_key = 83 ∷ 83 ∷ 82 ∷ 67 ∷ []
