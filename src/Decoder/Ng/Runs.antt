-- ===== src/Decoder/Ng/Runs.antt =====
-- decoder/util.go: concrete runs, and the theorems at concrete inputs.
use heplify.Common.{◌≡◌, ◌≢◌, [], ◌∷◌, ◌++◌, All, ok, panic, arith}
use heplify.Common.Bytes.{Bytes}
use heplify.Decoder.Ng.Numbers.{pos, negsuc}
use heplify.Decoder.Ng.{Value, integer, text, list, dictionary, nil, cons, end, entry, unmarshal_ng}
use heplify.Decoder.Ng.Encode.{
  AreValues, AreEntries, write_values, write_entries, write_text, write_value, IsValue,
}
use heplify.Decoder.Ng.RoundTrip.{unmarshal_ng-write_value}
use heplify.Decoder.Ng.Overrun.{overrun, unmarshal_ng-overrun}

-- "abc12"
abbrev cookie : Bytes
cookie = 97 ∷ 98 ∷ 99 ∷ 49 ∷ 50 ∷ []

cookie_plain : All (λ b. b ≢ 32) cookie
cookie_plain = (
  (λ e. omega arith),
  ((λ e. omega arith), ((λ e. omega arith), ((λ e. omega arith), ((λ e. omega arith), tt)))),
)

-- A dictionary with the key "id" for "x7" and the key "n" for a list of two numbers.
abbrev reply : Value
reply = dictionary (
    entry (105 ∷ 100 ∷ []) (text (120 ∷ 55 ∷ []))
      (entry (110 ∷ []) (list (cons (integer (pos 42)) (cons (integer (negsuc 6)) nil))) end))

reply-IsValue : IsValue reply
unfolding IsValue
reply-IsValue = (
  omega arith,
  omega arith,
  ((λ e. cc), tt),
  (omega arith, (omega arith, (omega arith, tt)), tt, tt),
)

unmarshal_ng-write_value_example :
    unmarshal_ng [] (cookie ++ 32 ∷ write_value reply []) ≡ ok (cookie ++ 32 ∷ [], reply)
unmarshal_ng-write_value_example =
    unmarshal_ng-write_value [] cookie reply cookie_plain (omega arith) (omega arith) reply-IsValue

-- The string announces 5 bytes and holds 2 of them; behind the number 7, and behind the entry "a" as that of "b".
unmarshal_ng-overrun_example :
    (unmarshal_ng (3 ∷ 4 ∷ 5 ∷ 6 ∷ []) (cookie ++ 32 ∷ overrun (1 ∷ 2 ∷ []) (3 ∷ 4 ∷ 5 ∷ []))
      ≡ ok (cookie ++ 32 ∷ [], text (1 ∷ 2 ∷ 3 ∷ 4 ∷ 5 ∷ [])))
    × (unmarshal_ng (3 ∷ 4 ∷ 5 ∷ 6 ∷ []) (
          cookie
          ++ 32
            ∷ 108
            ∷ write_values (cons (integer (pos 7)) nil) (overrun (1 ∷ 2 ∷ []) (3 ∷ 4 ∷ 5 ∷ [])))
        ≡ panic)
    × (unmarshal_ng (3 ∷ 4 ∷ 5 ∷ 6 ∷ []) (
          cookie
          ++ 32
            ∷ 100
            ∷ write_entries
                (entry (97 ∷ []) (integer (pos 7)) end)
                (write_text (98 ∷ []) (overrun (1 ∷ 2 ∷ []) (3 ∷ 4 ∷ 5 ∷ []))))
        ≡ panic)
unfolding AreValues AreEntries IsValue
unmarshal_ng-overrun_example =
    unmarshal_ng-overrun cookie cookie_plain (omega arith) (omega arith) (1 ∷ 2 ∷ [])
      (3 ∷ 4 ∷ 5 ∷ []) (6 ∷ []) (98 ∷ []) (cons (integer (pos 7)) nil)
      (entry (97 ∷ []) (integer (pos 7)) end) (omega arith) (omega arith) (omega arith)
      (omega arith) (omega arith)
