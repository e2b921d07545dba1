-- ===== src/Ownlayers/Sip/Cases.antt =====
-- ownlayers/sip.go: which words are methods and versions.
use heplify.Common.{
  Bool, not, ◌&&◌, ◌||◌, ◌==◌, ◌++◌, ◌≡◌, ◌≢◌, ◌↔◌, refl, true, false, List, [], ◌∷◌, some, ap, ◌∙◌,
  All, Bool-cases, inl, inr, arith,
}
use heplify.Common.Bytes.{Bytes, bytes_eq, bytes_eq_iff}
use heplify.Decoder.Correlator.Search.{has_prefix}
use heplify.Ownlayers.Sip.Decode.{is_in, trim_left}
use heplify.Ownlayers.Sip.Words.{
  to_upper, SipVersion, version1, version2, version_text, SipMethod, invite, ack, bye, cancel,
  options, register, prack, subscribe, notify, publish, info, refer, message, update, ping,
  method_text, find_case, version_cases, method_cases, get_sip_method,
}

find_case_sound {ℓ} :
    {A : Type ℓ} (spell : A → Bytes) (s : Bytes) (cases : List (Bytes × A)) (a : A)
    → All (λ (word, a). word ≡ spell a) cases
    → find_case s cases ≡ some a
    → s ≡ spell a
unfolding find_case
find_case_sound spell s [] a h e = cc
find_case_sound spell s ((word, b) ∷ cases) a (spelt, h) e = elim (Bool-cases (bytes_eq s word)) [
  | inl same ↦
      let here : some b ≡ some a = rw same at e in
      let word_is : s ≡ word = (bytes_eq_iff s word).0 same in cc
  | inr other ↦ find_case_sound spell s cases a h (rw other at e)
]

pub method_case : (m : SipMethod) → find_case (method_text m) method_cases ≡ some m
unfolding find_case bytes_eq
method_case invite = refl
method_case ack = refl
method_case bye = refl
method_case cancel = refl
method_case options = refl
method_case register = refl
method_case prack = refl
method_case subscribe = refl
method_case notify = refl
method_case publish = refl
method_case info = refl
method_case refer = refl
method_case message = refl
method_case update = refl
method_case ping = refl

pub version_case : (v : SipVersion) → find_case (version_text v) version_cases ≡ some v
unfolding find_case bytes_eq
version_case version1 = refl
version_case version2 = refl

-- `GetSIPMethod` answers with a method exactly for the words that are the method's name in some
-- mixture of upper and lower case.
get_sip_method_iff :
    (word : Bytes) (m : SipMethod)
    → (get_sip_method word ≡ some m) ↔ (to_upper word ≡ method_text m)
unfolding get_sip_method
get_sip_method_iff word m = (
  find_case_sound method_text (to_upper word) method_cases m (
    refl,
    (
      refl,
      (
        refl,
        (
          refl,
          (
            refl,
            (refl, (refl, (refl, (refl, (refl, (refl, (refl, (refl, (refl, (refl, tt)))))))))),
          ),
        ),
      ),
    ),
  ),
  (λ e. ap (λ s. find_case s method_cases) e ∙ method_case m),
)

-- The names of the methods are in upper case.
pub to_upper-method_text : (m : SipMethod) → to_upper (method_text m) ≡ method_text m
unfolding to_upper
to_upper-method_text invite = refl
to_upper-method_text ack = refl
to_upper-method_text bye = refl
to_upper-method_text cancel = refl
to_upper-method_text options = refl
to_upper-method_text register = refl
to_upper-method_text prack = refl
to_upper-method_text subscribe = refl
to_upper-method_text notify = refl
to_upper-method_text publish = refl
to_upper-method_text info = refl
to_upper-method_text refer = refl
to_upper-method_text message = refl
to_upper-method_text update = refl
to_upper-method_text ping = refl

pub to_upper-version_text : (v : SipVersion) → to_upper (version_text v) ≡ version_text v
unfolding to_upper
to_upper-version_text version1 = refl
to_upper-version_text version2 = refl

-- No method begins with "SIP", and none has a space.
pub has_prefix-method_text :
    (m : SipMethod) → has_prefix (83 ∷ 73 ∷ 80 ∷ []) (method_text m) ≡ false
unfolding has_prefix
has_prefix-method_text invite = refl
has_prefix-method_text ack = refl
has_prefix-method_text bye = refl
has_prefix-method_text cancel = refl
has_prefix-method_text options = refl
has_prefix-method_text register = refl
has_prefix-method_text prack = refl
has_prefix-method_text subscribe = refl
has_prefix-method_text notify = refl
has_prefix-method_text publish = refl
has_prefix-method_text info = refl
has_prefix-method_text refer = refl
has_prefix-method_text message = refl
has_prefix-method_text update = refl
has_prefix-method_text ping = refl

-- No line end and no space.
unfoldable pub is_word : Bytes → Bool
is_word [] = true
is_word (b ∷ s) = not (b == 10 || b == 13 || b == 32) && is_word s

pub is_word-All : (s : Bytes) → is_word s ≡ true → All (λ b. (b ≢ 10) × (b ≢ 13) × (b ≢ 32)) s
unfolding is_word
is_word-All [] e = tt
is_word-All (b ∷ s) e = (
  ((λ p. ground (arith, e)), (λ p. ground (arith, e)), (λ p. ground (arith, e))),
  is_word-All s (ground (arith, e)),
)

pub is_word-method_text : (m : SipMethod) → is_word (method_text m) ≡ true
unfolding is_word
is_word-method_text invite = refl
is_word-method_text ack = refl
is_word-method_text bye = refl
is_word-method_text cancel = refl
is_word-method_text options = refl
is_word-method_text register = refl
is_word-method_text prack = refl
is_word-method_text subscribe = refl
is_word-method_text notify = refl
is_word-method_text publish = refl
is_word-method_text info = refl
is_word-method_text refer = refl
is_word-method_text message = refl
is_word-method_text update = refl
is_word-method_text ping = refl

pub is_word-version_text : (v : SipVersion) → is_word (version_text v) ≡ true
unfolding is_word
is_word-version_text version1 = refl
is_word-version_text version2 = refl

pub trim_left-method_text :
    (m : SipMethod) (rest : Bytes)
    → trim_left (10 ∷ []) (method_text m ++ rest) ≡ method_text m ++ rest
unfolding trim_left is_in
trim_left-method_text invite rest = refl
trim_left-method_text ack rest = refl
trim_left-method_text bye rest = refl
trim_left-method_text cancel rest = refl
trim_left-method_text options rest = refl
trim_left-method_text register rest = refl
trim_left-method_text prack rest = refl
trim_left-method_text subscribe rest = refl
trim_left-method_text notify rest = refl
trim_left-method_text publish rest = refl
trim_left-method_text info rest = refl
trim_left-method_text refer rest = refl
trim_left-method_text message rest = refl
trim_left-method_text update rest = refl
trim_left-method_text ping rest = refl
