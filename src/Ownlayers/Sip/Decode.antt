-- ===== src/Ownlayers/Sip/Decode.antt =====
-- ownlayers/sip.go: the SIP layer's `DecodeFromBytes`, `ParseFirstLine` and the readers of headers.
use heplify.Common.{
  ℕ, zero, suc, ◌+◌, Bool, true, false, ◌||◌, List, [], ◌∷◌, ◌++◌, Option, none, some, length, take,
  drop, ◌==◌, if◌then◌else◌, Outcome, ok, err, stuck, ◌>>=◌,
}
use heplify.Common.Bytes.{Bytes, bytes_eq}
use heplify.Decoder.Ng.{read_until}
use heplify.Decoder.Ng.Numbers.{ℤ, pos, parse_int}
use heplify.Decoder.Correlator.Search.{has_prefix}
use heplify.Ownlayers.Sip.Words.{
  to_lower, SipVersion, SipMethod, find_case, get_sip_version, get_sip_method, compact_forms,
}

-- The map of headers, each name once, with its values in the order of their lines.
abbrev pub Headers : Type 0
Headers = List (Bytes × List Bytes)

-- `SIP`; `none` is the number 0 of no version and no method.
pub record Sip : Type 0 where
  pub version : Option SipVersion
  pub headers : Headers
  pub method : Option SipMethod
  pub is_response : Bool
  pub response_code : ℤ
  pub response_status : Bytes
  pub payload : Bytes

-- `NewSIP`
abbrev pub new_sip : Sip
new_sip = record {
  version = none;
  headers = [];
  method = none;
  is_response = false;
  response_code = pos 0;
  response_status = [];
  payload = [];
}

pub data SipError : Type 0 where
  invalid_first_line invalid_version invalid_code invalid_method : SipError

abbrev pub Decoding : Type 0
Decoding = Outcome SipError Sip

unfoldable pub is_in : Bytes → ℕ → Bool
is_in [] b = false
is_in (c ∷ cutset) b = b == c || is_in cutset b

unfoldable pub trim_left : Bytes → Bytes → Bytes
trim_left cutset [] = []
trim_left cutset (b ∷ s) =
    let further = trim_left cutset s in if is_in cutset b then further else b ∷ s

abbrev pub put_back : Bool → ℕ → Bytes → Bytes
put_back true b [] = []
put_back cut b s = b ∷ s

unfoldable pub trim_right : Bytes → Bytes → Bytes
trim_right cutset [] = []
trim_right cutset (b ∷ s) = put_back (is_in cutset b) b (trim_right cutset s)

-- `bytes.Trim`
unfoldable pub trim : Bytes → Bytes → Bytes
trim cutset s = trim_left cutset (trim_right cutset s)

-- `append` to the values of a name.
unfoldable pub add_value : Bytes → Bytes → Headers → Headers
add_value name value [] = (name, value ∷ []) ∷ []
add_value name value ((name', values) ∷ hs) =
    let rest = add_value name value hs in
    if bytes_eq name name' then (name', values ++ value ∷ []) ∷ hs else (name', values) ∷ rest

-- A header's line; one without a colon is passed over.
unfoldable pub add_header : Bytes → Sip → Sip
add_header line s = elim (read_until line 58) [
  | none ↦ s
  | some (name, n) ↦ record s {
    headers =
        add_value (to_lower (trim (32 ∷ []) (take n line))) (trim (32 ∷ []) (drop (n + 1) line))
          s.headers;
  }
]

-- `strings.SplitN(line, " ", 3)`, if it has three parts.
unfoldable pub split_3 : Bytes → Option (Bytes × Bytes × Bytes)
split_3 line = elim (read_until line 32) [
  | none ↦ none
  | some (a, n) ↦ elim (read_until (drop (n + 1) line) 32) [
    | none ↦ none
    | some (b, m) ↦ some (a, b, drop (m + 1) (drop (n + 1) line))
  ]
]

abbrev pub with_version : Option SipVersion → Sip → (Sip → Decoding) → Decoding
with_version none s k = err invalid_version
with_version (some v) s k = k (record s { version = some v })

abbrev pub with_method : Option SipMethod → Sip → (Sip → Decoding) → Decoding
with_method none s k = err invalid_method
with_method (some m) s k = k (record s { method = some m })

abbrev pub with_code : Option ℤ → Sip → (Sip → Decoding) → Decoding
with_code none s k = err invalid_code
with_code (some z) s k = k (record s { response_code = z })

unfoldable pub parse_response : Bytes → Bytes → Bytes → Sip → Decoding
parse_response a b c s =
    with_version (get_sip_version a) (record s { is_response = true })
      λ s1. with_code (parse_int b) s1 λ s2. ok (record s2 { response_status = c })

unfoldable pub parse_request : Bytes → Bytes → Sip → Decoding
parse_request a c s = with_method (get_sip_method a) s λ s1. with_version (get_sip_version c) s1 ok

-- `ParseFirstLine`; "SIP" is 83, 73, 80. A layer that is left half filled by an error is dropped.
unfoldable pub parse_first_line : Bytes → Sip → Decoding
parse_first_line line s = elim (split_3 line) [
  | none ↦ err invalid_first_line
  | some (a, b, c) ↦
      if has_prefix (83 ∷ 73 ∷ 80 ∷ []) a then parse_response a b c s else parse_request a c s
]

-- `buffer.ReadBytes('\n')`: the line with its end and the rest, `none` the end of the buffer.
unfoldable pub read_line : Bytes → Option (Bytes × Bytes)
read_line buffer = elim (read_until buffer 10) [
  | none ↦ none
  | some (s, n) ↦ some (take (n + 1) buffer, drop (n + 1) buffer)
]

unfoldable pub read_lines : ℕ → ℕ → Bytes → Sip → Decoding
read_lines zero count buffer s = stuck
read_lines (suc f) count buffer s = elim (read_line buffer) [
  | none ↦ ok s
  | some (raw, rest) ↦
      let line = trim (13 ∷ 10 ∷ []) raw in
      let first = (parse_first_line line s >>= read_lines f (count + 1) rest) in
      let further = read_lines f (count + 1) rest (add_header line s) in
      if length line == 0
      then ok (record s { payload = rest })
      else if count == 0
      then first
      else further
]

-- `DecodeFromBytes`; each round reads a byte at least, so the length is fuel enough.
unfoldable pub decode_from_bytes : Bytes → Sip → Decoding
decode_from_bytes packet s =
    let buffer = trim (10 ∷ []) packet in read_lines (suc (length buffer)) 0 buffer s

-- `decodeSIP`: the layer that is added to the packet.
unfoldable pub decode_sip : Bytes → Decoding
decode_sip packet = decode_from_bytes packet new_sip

abbrev pub values_of : Option (List Bytes) → List Bytes
values_of none = []
values_of (some values) = values

-- `s.Headers[name]`, and `compactSipHeadersCorrespondance[name]`, which is "" for a name that it lacks.
abbrev pub header_values : Bytes → Headers → List Bytes
header_values name hs = values_of (find_case name hs)

abbrev pub compact_of : Option Bytes → Bytes
compact_of none = []
compact_of (some c) = c

-- `GetHeader`
unfoldable pub get_header : Bytes → Sip → List Bytes
get_header header_name s =
    let name = to_lower header_name in
    let compact = header_values (compact_of (find_case name compact_forms)) s.headers in
    elim (find_case name s.headers) [ none ↦ [] | some [] ↦ compact | some (v ∷ vs) ↦ v ∷ vs ]

abbrev pub first_of : List Bytes → Bytes
first_of [] = []
first_of (v ∷ vs) = v

-- `GetFirstHeader`
unfoldable pub get_first_header : Bytes → Sip → Bytes
get_first_header header_name s =
    let name = to_lower header_name in
    let compact = header_values (compact_of (find_case name compact_forms)) s.headers in
    elim (find_case name s.headers) [ none ↦ [] | some [] ↦ first_of compact | some (v ∷ vs) ↦ v ]
