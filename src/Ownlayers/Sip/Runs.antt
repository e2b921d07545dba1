-- ===== src/Ownlayers/Sip/Runs.antt =====
-- ownlayers/sip.go: concrete runs, and the theorems at concrete inputs.
use heplify.Common.{◌≡◌, refl, List, [], ◌∷◌, some, ok, All, arith}
use heplify.Common.Bytes.{Bytes}
use heplify.Ownlayers.Sip.Words.{to_lower, options, version2}
use heplify.Ownlayers.Sip.Decode.{
  Sip, new_sip, trim, trim_left, trim_right, is_in, decode_sip, get_header, header_values,
}
use heplify.Ownlayers.Sip.Headers.{get_header_lem}
use heplify.Ownlayers.Sip.Lines.{IsHeader, write_line, write_headers, request_text}
use heplify.Ownlayers.Sip.Messages.{Kept, add_headers, decode_sip-write_line}

-- The URI "sip:a", the headers "To: b" and "i: x 1", and the body "v=0".
abbrev uri : Bytes
uri = 115 ∷ 105 ∷ 112 ∷ 58 ∷ 97 ∷ []

abbrev fields : List (Bytes × Bytes)
fields = (84 ∷ 111 ∷ [], 98 ∷ []) ∷ (105 ∷ [], 120 ∷ 32 ∷ 49 ∷ []) ∷ []

abbrev body : Bytes
body = 118 ∷ 61 ∷ 48 ∷ []

abbrev packet : Bytes
packet = write_line (request_text options uri version2) (write_headers fields (13 ∷ 10 ∷ body))

fields-IsHeader : All (λ (name, value). IsHeader name value) fields
unfolding trim trim_left trim_right is_in
fields-IsHeader = (
  record {
    name_line =
        (((λ e. omega arith), (λ e. omega arith)), (((λ e. omega arith), (λ e. omega arith)), tt));
    no_colon = ((λ e. omega arith), ((λ e. omega arith), tt));
    value_line = (((λ e. omega arith), (λ e. omega arith)), tt);
    name_trimmed = refl;
    value_trimmed = refl;
  },
  (
    record {
      name_line = (((λ e. omega arith), (λ e. omega arith)), tt);
      no_colon = ((λ e. omega arith), tt);
      value_line = (
        ((λ e. omega arith), (λ e. omega arith)),
        (((λ e. omega arith), (λ e. omega arith)), (((λ e. omega arith), (λ e. omega arith)), tt)),
      );
      name_trimmed = refl;
      value_trimmed = refl;
    },
    tt,
  ),
)

body-Kept : Kept body
unfolding trim_right is_in
body-Kept = (refl, omega arith)

abbrev layer : Sip
layer = record new_sip {
  method = some options;
  version = some version2;
  headers = add_headers fields [];
  payload = body;
}

decode_sip-write_line_example : decode_sip packet ≡ ok layer
decode_sip-write_line_example =
    decode_sip-write_line options uri version2 fields body
      (
        ((λ e. omega arith), (λ e. omega arith)),
        (
          ((λ e. omega arith), (λ e. omega arith)),
          (
            ((λ e. omega arith), (λ e. omega arith)),
            (
              ((λ e. omega arith), (λ e. omega arith)),
              (((λ e. omega arith), (λ e. omega arith)), tt),
            ),
          ),
        ),
      )
      (
        (λ e. omega arith),
        ((λ e. omega arith), ((λ e. omega arith), ((λ e. omega arith), ((λ e. omega arith), tt)))),
      )
      fields-IsHeader body-Kept

-- The Call-ID stands under its compact form "i".
get_header_lem_example :
    get_header (67 ∷ 97 ∷ 108 ∷ 108 ∷ 45 ∷ 73 ∷ 68 ∷ []) layer
    ≡ header_values (to_lower (67 ∷ 97 ∷ 108 ∷ 108 ∷ 45 ∷ 73 ∷ 68 ∷ [])) (add_headers fields [])
get_header_lem_example =
    get_header_lem packet (67 ∷ 97 ∷ 108 ∷ 108 ∷ 45 ∷ 73 ∷ 68 ∷ []) layer
      decode_sip-write_line_example
