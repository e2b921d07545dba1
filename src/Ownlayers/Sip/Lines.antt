-- ===== src/Ownlayers/Sip/Lines.antt =====
-- ownlayers/sip.go: the lines that `decodeSIP` reads, and the line of a header.
use heplify.Common.{
  ◌+◌, ◌≡◌, ◌≢◌, refl, true, List, [], ◌∷◌, ◌++◌, some, length, take, drop, length-append,
  take-append, drop-append, append_assoc, All, ap, ◌∙◌, sym, arith, ==_of_ne,
}
use heplify.Common.Bytes.{Bytes}
use heplify.Decoder.Ng.{read_until}
use heplify.Decoder.Ng.Leaves.{read_until-append}
use heplify.Ownlayers.Sip.Words.{to_lower, SipVersion, version_text, SipMethod, method_text}
use heplify.Ownlayers.Sip.Decode.{
  Sip, trim, trim_left, trim_right, put_back, is_in, add_value, add_header, read_line,
}

-- A line of text, and its end.
abbrev pub IsLine : Bytes → Type 0
IsLine s = All (λ b. (b ≢ 10) × (b ≢ 13)) s

abbrev pub write_line : Bytes → Bytes → Bytes
write_line s rest = s ++ 13 ∷ 10 ∷ rest

abbrev pub header_text : Bytes → Bytes → Bytes
header_text name value = name ++ 58 ∷ 32 ∷ value

abbrev pub write_headers : List (Bytes × Bytes) → Bytes → Bytes
write_headers [] rest = rest
write_headers ((name, value) ∷ hs) rest =
    write_line (header_text name value) (write_headers hs rest)

abbrev pub request_text : SipMethod → Bytes → SipVersion → Bytes
request_text m uri v = method_text m ++ 32 ∷ (uri ++ 32 ∷ version_text v)

-- A name without colon and a value, both without spaces at their ends, on one line.
pub record IsHeader (name value : Bytes) : Type 0 where
  pub name_line : IsLine name
  pub no_colon : All (λ b. b ≢ 58) name
  pub value_line : IsLine value
  pub name_trimmed : trim (32 ∷ []) name ≡ name
  pub value_trimmed : trim (32 ∷ []) value ≡ value

trim_right-line : (s : Bytes) → IsLine s → trim_right (13 ∷ 10 ∷ []) (s ++ 13 ∷ 10 ∷ []) ≡ s
unfolding trim_right is_in
trim_right-line [] h = refl
trim_right-line (b ∷ s) ((n, r), h) = rw (trim_right-line s h, ==_of_ne b 13 r, ==_of_ne b 10 n)

pub trim-line : (s : Bytes) → IsLine s → trim (13 ∷ 10 ∷ []) (s ++ 13 ∷ 10 ∷ []) ≡ s
unfolding trim trim_left is_in
trim-line [] h = rw (trim_right-line [] h)
trim-line (b ∷ s) ((n, r), h) =
    rw (trim_right-line (b ∷ s) ((n, r), h), ==_of_ne b 13 r, ==_of_ne b 10 n)

pub read_line-write_line :
    (s rest : Bytes) → IsLine s → read_line (write_line s rest) ≡ some (s ++ 13 ∷ 10 ∷ [], rest)
unfolding read_line
read_line-write_line s rest h =
    let whole : write_line s rest ≡ (s ++ 13 ∷ []) ++ 10 ∷ rest =
      sym (append_assoc s (13 ∷ []) (10 ∷ rest)) in
    let line : write_line s rest ≡ (s ++ 13 ∷ 10 ∷ []) ++ rest =
      sym (append_assoc s (13 ∷ 10 ∷ []) rest) in
    let found =
      ap (λ p. read_until p 10) whole ∙ read_until-append (s ++ 13 ∷ []) 10 rest (plain s h) in
    let size : length (s ++ 13 ∷ []) + 1 ≡ length (s ++ 13 ∷ 10 ∷ []) =
      omega (arith, length-append s (13 ∷ []), length-append s (13 ∷ 10 ∷ [])) in
    let front =
      ap (take (length (s ++ 13 ∷ []) + 1)) line
      ∙ take-append (length (s ++ 13 ∷ []) + 1) (s ++ 13 ∷ 10 ∷ []) rest size in
    let behind =
      ap (drop (length (s ++ 13 ∷ []) + 1)) line
      ∙ drop-append (length (s ++ 13 ∷ []) + 1) (s ++ 13 ∷ 10 ∷ []) rest size in
    rw (read_line, found, front, behind)
  where
    plain : (t : Bytes) → IsLine t → All (λ b. b ≢ 10) (t ++ 13 ∷ [])
    plain [] g = ((λ e. omega arith), tt)
    plain (b ∷ t) ((n, r), g) = (n, plain t g)

-- A space in front of a text is cut off.
trim-space : (s : Bytes) → trim (32 ∷ []) (32 ∷ s) ≡ trim (32 ∷ []) s
unfolding trim trim_right trim_left is_in
trim-space s = cut (trim_right (32 ∷ []) s)
  where
    cut : (r : Bytes) → trim_left (32 ∷ []) (put_back true 32 r) ≡ trim_left (32 ∷ []) r
    cut [] = refl
    cut (b ∷ r) = refl

pub add_header-header_text :
    (name value : Bytes) (s : Sip)
    → IsHeader name value
    → add_header (header_text name value) s
      ≡ record s { headers = add_value (to_lower name) value s.headers }
unfolding add_header
add_header-header_text name value s h =
    let line = header_text name value in
    let found = read_until-append name 58 (32 ∷ value) h.no_colon in
    let front = take-append (length name) name (58 ∷ 32 ∷ value) refl in
    let split : line ≡ (name ++ 58 ∷ []) ++ 32 ∷ value =
      sym (append_assoc name (58 ∷ []) (32 ∷ value)) in
    let behind =
      ap (drop (length name + 1)) split
      ∙ drop-append (length name + 1) (name ++ 58 ∷ []) (32 ∷ value)
          (omega (arith, length-append name (58 ∷ []))) in
    rw (add_header, found, front, behind, h.name_trimmed, trim-space value, h.value_trimmed)
