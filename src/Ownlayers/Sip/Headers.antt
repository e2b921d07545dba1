-- ===== src/Ownlayers/Sip/Headers.antt =====
-- ownlayers/sip.go: what `GetHeader` answers on a decoded layer, and packets without a line.
use heplify.Common.{
  ℕ, zero, suc, ◌+◌, ◌≡◌, ◌≢◌, refl, Bool, true, false, [], ◌∷◌, Option, none, some, length, ◌==◌,
  ok, >>=-returns, All, ap, ◌∙◌, Bool-cases, Option-cases, inl, inr, ==_of_ne, sym,
}
use heplify.Common.Bytes.{Bytes, bytes_eq}
use mathlib.Core.Path.{subst}
use heplify.Decoder.Ng.{read_until}
use heplify.Decoder.Ng.Numbers.{ℤ, parse_int}
use heplify.Decoder.Correlator.Search.{has_prefix}
use heplify.Ownlayers.Sip.Words.{
  to_lower, SipVersion, SipMethod, find_case, get_sip_version, get_sip_method,
}
use heplify.Ownlayers.Sip.Decode.{
  Headers, Sip, new_sip, Decoding, trim, trim_left, trim_right, put_back, is_in, add_value,
  add_header, with_version, with_method, with_code, parse_response, parse_request, split_3,
  parse_first_line, read_line, read_lines, decode_from_bytes, decode_sip, values_of, header_values,
  get_header,
}

-- Every name has a value.
abbrev IsFilled : Headers → Type 0
IsFilled hs = All (λ (name, values). values ≢ []) hs

add_value-IsFilled :
    (name value : Bytes) (hs : Headers) → IsFilled hs → IsFilled (add_value name value hs)
unfolding add_value
add_value-IsFilled name value [] h = ((λ e. cc), tt)
add_value-IsFilled name value ((name', []) ∷ hs) (ne, h) = absurd (ne refl)
add_value-IsFilled name value ((name', v ∷ vs) ∷ hs) (ne, h) =
    elim (Bool-cases (bytes_eq name name')) [
      | inl same ↦ rw same ((λ e. cc), h)
      | inr other ↦ rw other (ne, add_value-IsFilled name value hs h)
    ]

add_header-IsFilled :
    (line : Bytes) (s : Sip) → IsFilled s.headers → IsFilled (add_header line s).headers
unfolding add_header
add_header-IsFilled line s h = elim (Option-cases (read_until line 58)) [
  | inl no_colon ↦ rw (add_header, no_colon) h
  | inr ((name, n), found) ↦ rw (add_header, found) (add_value-IsFilled _ _ s.headers h)
]

-- The headers that a step leaves; `hs` if it fails.
abbrev headers_or : Headers → Decoding → Headers
headers_or hs (ok s) = s.headers
headers_or hs o = hs

-- The first line changes no header.
module _ (hs : Headers) where
  with_version_keeps :
      (v : Option SipVersion) (s : Sip) (k : Sip → Decoding)
      → s.headers ≡ hs
      → ((s1 : Sip) → s1.headers ≡ hs → headers_or hs (k s1) ≡ hs)
      → headers_or hs (with_version v s k) ≡ hs
  with_version_keeps none s k h hk = refl
  with_version_keeps (some v) s k h hk = hk (record s { version = some v }) h

  with_method_keeps :
      (m : Option SipMethod) (s : Sip) (k : Sip → Decoding)
      → s.headers ≡ hs
      → ((s1 : Sip) → s1.headers ≡ hs → headers_or hs (k s1) ≡ hs)
      → headers_or hs (with_method m s k) ≡ hs
  with_method_keeps none s k h hk = refl
  with_method_keeps (some m) s k h hk = hk (record s { method = some m }) h

  with_code_keeps :
      (z : Option ℤ) (s : Sip) (k : Sip → Decoding)
      → s.headers ≡ hs
      → ((s1 : Sip) → s1.headers ≡ hs → headers_or hs (k s1) ≡ hs)
      → headers_or hs (with_code z s k) ≡ hs
  with_code_keeps none s k h hk = refl
  with_code_keeps (some z) s k h hk = hk (record s { response_code = z }) h

  first_line_keeps :
      (line : Bytes) (s : Sip) → s.headers ≡ hs → headers_or hs (parse_first_line line s) ≡ hs
  unfolding parse_first_line parse_response parse_request
  first_line_keeps line s h = elim (Option-cases (split_3 line)) [
    | inl short ↦ rw (parse_first_line, short) refl
    | inr ((a, b, c), parts) ↦ elim (Bool-cases (has_prefix (83 ∷ 73 ∷ 80 ∷ []) a)) [
      | inl response ↦
          rw (parse_first_line, parts, response)
            (with_version_keeps (get_sip_version a) (record s { is_response = true }) _ h
              λ s1 h1. with_code_keeps (parse_int b) s1 _ h1 λ s2 h2. h2)
      | inr request ↦
          rw (parse_first_line, parts, request)
            (with_method_keeps (get_sip_method a) s _ h
              λ s1 h1. with_version_keeps (get_sip_version c) s1 _ h1 λ s2 h2. h2)
    ]
  ]

read_lines-IsFilled :
    (f count : ℕ) (buffer : Bytes) (s s' : Sip)
    → IsFilled s.headers
    → read_lines f count buffer s ≡ ok s'
    → IsFilled s'.headers
unfolding read_lines
read_lines-IsFilled zero count buffer s s' h e = cc
read_lines-IsFilled (suc f) count buffer s s' h e = elim (Option-cases (read_line buffer)) [
  | inl none_left ↦ subst IsFilled (ap (headers_or []) (rw (read_lines, none_left) at e)) h
  | inr ((raw, rest), found) ↦
      let line = trim (13 ∷ 10 ∷ []) raw in
      elim (Bool-cases (length line == 0)) [
        | inl blank ↦ subst IsFilled (ap (headers_or []) (rw (read_lines, found, blank) at e)) h
        | inr full ↦ elim (Bool-cases (count == 0)) [
          | inl first ↦
              let (s1, go_on, parsed) =
                >>=-returns (parse_first_line line s) (read_lines f (count + 1) rest)
                  (rw (read_lines, found, full, first) at e) in
              let same : s1.headers ≡ s.headers =
                ap (headers_or s.headers) (sym parsed) ∙ first_line_keeps s.headers line s refl in
              read_lines-IsFilled f (count + 1) rest s1 s' (subst IsFilled (sym same) h) go_on
          | inr later ↦
              read_lines-IsFilled f (count + 1) rest (add_header line s) s'
                (add_header-IsFilled line s h) (rw (read_lines, found, full, later) at e)
        ]
      ]
]

filled_find : (name : Bytes) (hs : Headers) → IsFilled hs → find_case name hs ≢ some []
unfolding find_case
filled_find name [] h = λ e. cc
filled_find name ((name', values) ∷ hs) (ne, h) = elim (Bool-cases (bytes_eq name name')) [
  | inl same ↦ rw same (λ e. ne (ap values_of e))
  | inr other ↦ rw other (filled_find name hs h)
]

-- On a layer that `decodeSIP` made, `GetHeader` answers the values that stand under the name itself in
-- lower case: the compact form of the name is never looked up.
pub get_header_lem :
    (packet name : Bytes) (s : Sip)
    → decode_sip packet ≡ ok s
    → get_header name s ≡ header_values (to_lower name) s.headers
unfolding decode_sip decode_from_bytes get_header
get_header_lem packet name s e =
    let buffer = trim (10 ∷ []) packet in
    let filled =
      filled_find (to_lower name) s.headers
        (read_lines-IsFilled (suc (length buffer)) 0 buffer new_sip s tt e) in
    elim (Option-cases (find_case (to_lower name) s.headers)) [
      | inl absent ↦ rw (get_header, absent)
      | inr ([], empty) ↦ absurd (filled empty)
      | inr (v ∷ vs, there) ↦ rw (get_header, there)
    ]

trim_left-All {κ} : (P : ℕ → Type κ) (cutset s : Bytes) → All P s → All P (trim_left cutset s)
unfolding trim_left
trim_left-All P cutset [] h = h
trim_left-All P cutset (b ∷ s) (hb, h) = elim (Bool-cases (is_in cutset b)) [
  | inl cut ↦ rw cut (trim_left-All P cutset s h)
  | inr kept ↦ rw kept (hb, h)
]

put_back-All {κ} :
    (P : ℕ → Type κ) (cut : Bool) (b : ℕ) (s : Bytes) → P b → All P s → All P (put_back cut b s)
put_back-All P true b [] hb h = tt
put_back-All P true b (c ∷ s) hb h = (hb, h)
put_back-All P false b s hb h = (hb, h)

trim_right-All {κ} : (P : ℕ → Type κ) (cutset s : Bytes) → All P s → All P (trim_right cutset s)
unfolding trim_right
trim_right-All P cutset [] h = h
trim_right-All P cutset (b ∷ s) (hb, h) =
    put_back-All P (is_in cutset b) b (trim_right cutset s) hb (trim_right-All P cutset s h)

read_until-none : (s : Bytes) (symbol : ℕ) → All (λ b. b ≢ symbol) s → read_until s symbol ≡ none
unfolding read_until
read_until-none [] symbol h = refl
read_until-none (b ∷ s) symbol (ne, h) = rw (==_of_ne b symbol ne, read_until-none s symbol h)

read_lines-none :
    (f count : ℕ) (buffer : Bytes) (s : Sip)
    → read_until buffer 10 ≡ none
    → read_lines (suc f) count buffer s ≡ ok s
unfolding read_lines read_line
read_lines-none f count buffer s never = rw (read_lines, read_line, never)

-- `decodeSIP` accepts every packet without a line end, as an empty layer.
pub decode_sip_no_line :
    (packet : Bytes) → All (λ b. b ≢ 10) packet → decode_sip packet ≡ ok new_sip
unfolding decode_sip decode_from_bytes trim
decode_sip_no_line packet h =
    let buffer = trim_left (10 ∷ []) (trim_right (10 ∷ []) packet) in
    read_lines-none (length buffer) 0 buffer new_sip (
      read_until-none buffer 10 (trim_left-All _ (10 ∷ []) _ (trim_right-All _ (10 ∷ []) packet h)))
