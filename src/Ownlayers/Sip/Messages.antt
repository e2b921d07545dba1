-- ===== src/Ownlayers/Sip/Messages.antt =====
-- ownlayers/sip.go: `decodeSIP` reads the requests that RFC 3261 writes.
use heplify.Common.{
  ℕ, zero, suc, ◌+◌, ◌<◌, ◌≤◌, ◌≡◌, ◌≢◌, refl, Bool, true, false, List, [], ◌∷◌, ◌++◌, some, length,
  drop, length-append, drop-append, append_assoc, ◌==◌, ok, All, ap, ◌∙◌, sym, arith, ==_of_ne,
}
use heplify.Common.Bytes.{Bytes}
use heplify.Decoder.Ng.{read_until}
use heplify.Decoder.Ng.Leaves.{read_until-append}
use heplify.Ownlayers.Sip.Words.{
  to_lower, SipVersion, version_text, SipMethod, method_text, get_sip_version, get_sip_method,
}
use heplify.Ownlayers.Sip.Decode.{
  Headers, Sip, new_sip, trim, trim_left, trim_right, put_back, is_in, add_value, split_3,
  parse_request, parse_first_line, read_lines, decode_from_bytes, decode_sip,
}
use heplify.Ownlayers.Sip.Cases.{
  method_case, version_case, to_upper-method_text, to_upper-version_text, has_prefix-method_text,
  is_word-All, is_word-method_text, is_word-version_text, trim_left-method_text,
}
use heplify.Ownlayers.Sip.Lines.{
  IsLine, write_line, header_text, write_headers, request_text, IsHeader, trim-line,
  read_line-write_line, add_header-header_text,
}

module _ {κ} (P : ℕ → Type κ) where
  All-append : (s t : Bytes) → All P s → All P t → All P (s ++ t)
  All-append [] t hs ht = ht
  All-append (b ∷ s) t (hb, hs) ht = (hb, All-append s t hs ht)

words_plain :
    (s : Bytes) → All (λ b. (b ≢ 10) × (b ≢ 13) × (b ≢ 32)) s → IsLine s × All (λ b. b ≢ 32) s
words_plain [] h = (tt, tt)
words_plain (b ∷ s) ((n, r, sp), h) =
    let (line, spaceless) = words_plain s h in (((n, r), line), (sp, spaceless))

header_text-IsLine : (name value : Bytes) → IsHeader name value → IsLine (header_text name value)
header_text-IsLine name value h = All-append _ name (58 ∷ 32 ∷ value) h.name_line (
  ((λ e. omega arith), (λ e. omega arith)),
  (((λ e. omega arith), (λ e. omega arith)), h.value_line),
)

request_text-IsLine :
    (m : SipMethod) (uri : Bytes) (v : SipVersion) → IsLine uri → IsLine (request_text m uri v)
request_text-IsLine m uri v h =
    let (method_line, a) =
      words_plain (method_text m) (is_word-All (method_text m) (is_word-method_text m)) in
    let (version_line, b) =
      words_plain (version_text v) (is_word-All (version_text v) (is_word-version_text v)) in
    All-append _ (method_text m) (32 ∷ (uri ++ 32 ∷ version_text v)) method_line (
      ((λ e. omega arith), (λ e. omega arith)),
      All-append _ uri (32 ∷ version_text v) h
          (((λ e. omega arith), (λ e. omega arith)), version_line),
    )

past_space : (s rest : Bytes) → drop (length s + 1) (s ++ 32 ∷ rest) ≡ rest
past_space s rest =
    ap (drop (length s + 1)) (sym (append_assoc s (32 ∷ []) rest))
    ∙ drop-append (length s + 1) (s ++ 32 ∷ []) rest (omega (arith, length-append s (32 ∷ [])))

split_3-request_text :
    (m : SipMethod) (uri : Bytes) (v : SipVersion)
    → All (λ b. b ≢ 32) uri
    → split_3 (request_text m uri v) ≡ some (method_text m, uri, version_text v)
unfolding split_3
split_3-request_text m uri v h =
    let (line, spaceless) =
      words_plain (method_text m) (is_word-All (method_text m) (is_word-method_text m)) in
    let first = read_until-append (method_text m) 32 (uri ++ 32 ∷ version_text v) spaceless in
    let behind = past_space (method_text m) (uri ++ 32 ∷ version_text v) in
    let second = ap (λ s. read_until s 32) behind ∙ read_until-append uri 32 (version_text v) h in
    let third = ap (drop (length uri + 1)) behind ∙ past_space uri (version_text v) in
    rw (split_3, first, second, third)

parse_first_line-request_text :
    (m : SipMethod) (uri : Bytes) (v : SipVersion) (s : Sip)
    → All (λ b. b ≢ 32) uri
    → parse_first_line (request_text m uri v) s
      ≡ ok (record s { method = some m; version = some v })
unfolding parse_first_line parse_request get_sip_method get_sip_version
parse_first_line-request_text m uri v s h = rw (
  parse_first_line,
  split_3-request_text m uri v h,
  has_prefix-method_text m,
  to_upper-method_text m,
  to_upper-version_text v,
  method_case m,
  version_case v,
)

-- The headers one after the other, a repeated name's values collected.
abbrev pub add_headers : List (Bytes × Bytes) → Headers → Headers
add_headers [] hs = hs
add_headers ((name, value) ∷ more) hs = add_headers more (add_value (to_lower name) value hs)

read_lines-write_headers :
    (hs : List (Bytes × Bytes)) (f count : ℕ) (body : Bytes) (s : Sip)
    → All (λ (name, value). IsHeader name value) hs
    → 0 < count
    → length hs < f
    → read_lines f count (write_headers hs (13 ∷ 10 ∷ body)) s
      ≡ ok (record s { headers = add_headers hs s.headers; payload = body })
unfolding read_lines
read_lines-write_headers hs zero count body s h later fuel = absurd (omega arith)
read_lines-write_headers [] (suc f) count body s h later fuel =
    rw (read_lines, read_line-write_line [] body tt, trim-line [] tt)
read_lines-write_headers ((name, value) ∷ hs) (suc f) count body s (hh, h) later fuel =
    let line = header_text name value in
    let raw =
      read_line-write_line line (write_headers hs (13 ∷ 10 ∷ body))
        (header_text-IsLine name value hh) in
    let full : (length line == 0) ≡ false =
      ==_of_ne (length line) 0 (λ e. omega (arith, length-append name (58 ∷ 32 ∷ value))) in
    let not_first : (count == 0) ≡ false = ==_of_ne count 0 (λ e. omega arith) in
    rw
      (
        read_lines,
        raw,
        trim-line line (header_text-IsLine name value hh),
        full,
        not_first,
        add_header-header_text name value s hh,
      )
      (read_lines-write_headers hs f (count + 1) body
        (record s { headers = add_value (to_lower name) value s.headers }) h (omega arith)
        (omega arith))

-- What trimming on the right leaves alone it leaves alone behind more bytes.
abbrev pub Kept : Bytes → Type 0
Kept s = (trim_right (10 ∷ []) s ≡ s) × (0 < length s)

put_back-cons : (cut : Bool) (b c : ℕ) (s : Bytes) → put_back cut b (c ∷ s) ≡ b ∷ c ∷ s
put_back-cons true b c s = refl
put_back-cons false b c s = refl

append-Kept : (s t : Bytes) → Kept t → Kept (s ++ t)
unfolding trim_right
append-Kept [] t h = h
append-Kept (b ∷ s) t h =
    let (kept, some_byte) = append-Kept s t h in
    (
      ap (put_back (is_in (10 ∷ []) b) b) kept ∙ whole (is_in (10 ∷ []) b) (s ++ t) some_byte,
      omega arith,
    )
  where
    whole : (cut : Bool) (r : Bytes) → 0 < length r → put_back cut b r ≡ b ∷ r
    whole cut [] h1 = absurd (omega arith)
    whole cut (c ∷ r) h1 = put_back-cons cut b c r

write_headers-Kept :
    (hs : List (Bytes × Bytes)) (rest : Bytes) → Kept rest → Kept (write_headers hs rest)
write_headers-Kept [] rest h = h
write_headers-Kept ((name, value) ∷ hs) rest h =
    append-Kept (header_text name value) (13 ∷ 10 ∷ write_headers hs rest)
      (append-Kept (13 ∷ 10 ∷ []) (write_headers hs rest) (write_headers-Kept hs rest h))

write_headers-length :
    (hs : List (Bytes × Bytes)) (rest : Bytes) → length hs ≤ length (write_headers hs rest)
write_headers-length [] rest = omega arith
write_headers-length ((name, value) ∷ hs) rest = omega (
  arith,
  length-append (header_text name value) (13 ∷ 10 ∷ write_headers hs rest),
  write_headers-length hs rest,
)

read_lines-request_text :
    (f : ℕ) (m : SipMethod) (uri : Bytes) (v : SipVersion) (hs : List (Bytes × Bytes))
    (body : Bytes)
    → IsLine uri
    → All (λ b. b ≢ 32) uri
    → All (λ (name, value). IsHeader name value) hs
    → length hs < f
    → read_lines
        (suc f)
        0
        (write_line (request_text m uri v) (write_headers hs (13 ∷ 10 ∷ body)))
        new_sip
      ≡ ok (record new_sip {
        method = some m;
        version = some v;
        headers = add_headers hs [];
        payload = body;
      })
unfolding read_lines
read_lines-request_text f m uri v hs body line spaceless h fuel =
    let first = request_text m uri v in
    let first_line = request_text-IsLine m uri v line in
    let raw = read_line-write_line first (write_headers hs (13 ∷ 10 ∷ body)) first_line in
    let full : (length first == 0) ≡ false =
      ==_of_ne (length first) 0
        (λ e. omega (arith, length-append (method_text m) (32 ∷ (uri ++ 32 ∷ version_text v)))) in
    rw
      (
        read_lines,
        raw,
        trim-line first first_line,
        full,
        parse_first_line-request_text m uri v new_sip spaceless,
      )
      (read_lines-write_headers hs f 1 body (record new_sip { method = some m; version = some v }) h
        (omega arith) fuel)

pub decode_sip-write_line :
    (m : SipMethod) (uri : Bytes) (v : SipVersion) (hs : List (Bytes × Bytes)) (body : Bytes)
    → IsLine uri
    → All (λ b. b ≢ 32) uri
    → All (λ (name, value). IsHeader name value) hs
    → Kept body
    → decode_sip (write_line (request_text m uri v) (write_headers hs (13 ∷ 10 ∷ body)))
      ≡ ok (record new_sip {
        method = some m;
        version = some v;
        headers = add_headers hs [];
        payload = body;
      })
unfolding decode_sip decode_from_bytes trim
decode_sip-write_line m uri v hs body line spaceless h kept =
    let first = request_text m uri v in
    let rest = write_headers hs (13 ∷ 10 ∷ body) in
    let message = write_line first rest in
    let (right, more) = append-Kept first (13 ∷ 10 ∷ rest) (
      append-Kept (13 ∷ 10 ∷ []) rest
        (write_headers-Kept hs (13 ∷ 10 ∷ body) (append-Kept (13 ∷ 10 ∷ []) body kept))) in
    let split : message ≡ method_text m ++ (32 ∷ (uri ++ 32 ∷ version_text v) ++ 13 ∷ 10 ∷ rest) =
      append_assoc (method_text m) (32 ∷ (uri ++ 32 ∷ version_text v)) (13 ∷ 10 ∷ rest) in
    let trimmed : trim (10 ∷ []) message ≡ message =
      ap (trim_left (10 ∷ [])) right
      ∙ ap (trim_left (10 ∷ [])) split
      ∙ trim_left-method_text m (32 ∷ (uri ++ 32 ∷ version_text v) ++ 13 ∷ 10 ∷ rest)
      ∙ sym split in
    ap (λ s. read_lines (suc (length s)) 0 s new_sip) trimmed
    ∙ read_lines-request_text (length message) m uri v hs body line spaceless h (
        omega
          (arith, write_headers-length hs (13 ∷ 10 ∷ body), length-append first (13 ∷ 10 ∷ rest)))
