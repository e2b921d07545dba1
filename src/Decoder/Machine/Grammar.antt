-- ===== src/Decoder/Machine/Grammar.antt =====
-- decoder/machine.rl: the grammar from which the scanner of decoder/machine.go is generated, as
-- languages of bytes.
use heplify.Common.{
  ℕ, ◌≤◌, ◌≡◌, refl, sym, ap, ◌∙◌, Bool, true, false, ◌⊎◌, ◌||◌, List, [], ◌∷◌, ◌++◌, append_assoc,
  append-nil, All,
}
use heplify.Common.Bytes.{Bytes, bytes_eq}

abbrev pub Lang : Type 1
Lang = Bytes → Type 0

abbrev pub anything : Lang
anything w = Unit

-- One language behind the other, Ragel's juxtaposition.
infixl 40 ◌⨾◌
abbrev pub ◌⨾◌ : Lang → Lang → Lang
(L ⨾ M) w = (u : Bytes) × (v : Bytes) × (w ≡ u ++ v) × L u × M v

-- One byte of a class, and Ragel's `*`, `+` and `?`.
abbrev pub one : (ℕ → Type 0) → Lang
one P w = (b : ℕ) × (w ≡ b ∷ []) × P b

abbrev pub many : (ℕ → Type 0) → Lang
many P w = All P w

abbrev pub plus : (ℕ → Type 0) → Lang
plus P = one P ⨾ many P

abbrev pub opt : Lang → Lang
opt L w = (w ≡ []) ⊎ L w

abbrev pub IsEither : ℕ → ℕ → ℕ → Type 0
IsEither m n b = (b ≡ m) ⊎ (b ≡ n)

-- SP and HTAB
abbrev pub IsWsp : ℕ → Type 0
IsWsp = IsEither 9 32

abbrev pub IsDigit : ℕ → Type 0
IsDigit b = (48 ≤ b) × (b ≤ 57)

abbrev pub crlf : Lang
crlf = one (λ b. b ≡ 13) ⨾ one (λ b. b ≡ 10)

abbrev pub lws : Lang
lws = opt (many IsWsp ⨾ crlf) ⨾ plus IsWsp

abbrev pub sws : Lang
sws = opt lws

abbrev pub hcolon : Lang
hcolon = many IsWsp ⨾ one (λ b. b ≡ 58) ⨾ sws

-- "CSeq"i
abbrev pub cseq_name : Lang
cseq_name =
    one (IsEither 67 99) ⨾ one (IsEither 83 115) ⨾ one (IsEither 69 101) ⨾ one (IsEither 81 113)

-- The fourteen methods, from INVITE to PUBLISH in the order of the grammar.
abbrev pub methods : List Bytes
methods =
    (73 ∷ 78 ∷ 86 ∷ 73 ∷ 84 ∷ 69 ∷ [])
    ∷ (65 ∷ 67 ∷ 75 ∷ [])
    ∷ (79 ∷ 80 ∷ 84 ∷ 73 ∷ 79 ∷ 78 ∷ 83 ∷ [])
    ∷ (66 ∷ 89 ∷ 69 ∷ [])
    ∷ (67 ∷ 65 ∷ 78 ∷ 67 ∷ 69 ∷ 76 ∷ [])
    ∷ (82 ∷ 69 ∷ 71 ∷ 73 ∷ 83 ∷ 84 ∷ 69 ∷ 82 ∷ [])
    ∷ (73 ∷ 78 ∷ 70 ∷ 79 ∷ [])
    ∷ (80 ∷ 82 ∷ 65 ∷ 67 ∷ 75 ∷ [])
    ∷ (83 ∷ 85 ∷ 66 ∷ 83 ∷ 67 ∷ 82 ∷ 73 ∷ 66 ∷ 69 ∷ [])
    ∷ (78 ∷ 79 ∷ 84 ∷ 73 ∷ 70 ∷ 89 ∷ [])
    ∷ (85 ∷ 80 ∷ 68 ∷ 65 ∷ 84 ∷ 69 ∷ [])
    ∷ (77 ∷ 69 ∷ 83 ∷ 83 ∷ 65 ∷ 71 ∷ 69 ∷ [])
    ∷ (82 ∷ 69 ∷ 70 ∷ 69 ∷ 82 ∷ [])
    ∷ (80 ∷ 85 ∷ 66 ∷ 76 ∷ 73 ∷ 83 ∷ 72 ∷ [])
    ∷ []

unfoldable pub one_of : Bytes → List Bytes → Bool
one_of w [] = false
one_of w (x ∷ xs) = bytes_eq w x || one_of w xs

abbrev pub IsMethod : Lang
IsMethod w = one_of w methods ≡ true

-- `any* "CSeq"i HCOLON DIGIT+ LWS`: what stands before the method.
abbrev pub front : Lang
front = anything ⨾ cseq_name ⨾ hcolon ⨾ plus IsDigit ⨾ lws

abbrev pub cseq_line : Lang
cseq_line = front ⨾ IsMethod

pub ⨾_assoc : {L M N : Lang} (w : Bytes) → (L ⨾ M ⨾ N) w → (L ⨾ (M ⨾ N)) w
⨾_assoc w (uv, n, e, (u, v, e', l, m), k) =
    (u, v ++ n, e ∙ ap (λ x. x ++ n) e' ∙ append_assoc u v n, l, (v, n, refl, m, k))

-- One byte more behind the second language.
pub ⨾_snoc :
    {L M N : Lang} (b : ℕ) (w : Bytes)
    → ((v : Bytes) → M v → N (v ++ b ∷ []))
    → (L ⨾ M) w
    → (L ⨾ N) (w ++ b ∷ [])
⨾_snoc b w f (u, v, e, l, m) =
    (u, v ++ b ∷ [], ap (λ x. x ++ b ∷ []) e ∙ append_assoc u v (b ∷ []), l, f v m)

pub ⨾_one : {L : Lang} {P : ℕ → Type 0} (b : ℕ) (w : Bytes) → L w → P b → (L ⨾ one P) (w ++ b ∷ [])
⨾_one b w l p = (w, b ∷ [], refl, l, (b, refl, p))

pub ⨾_start : {L M : Lang} (b : ℕ) (w : Bytes) → L w → M (b ∷ []) → (L ⨾ M) (w ++ b ∷ [])
⨾_start b w l m = (w, b ∷ [], refl, l, m)

pub ⨾_nil : {L M : Lang} (w : Bytes) → L w → M [] → (L ⨾ M) w
⨾_nil w l m = (w, [], sym (append-nil w), l, m)

pub many-snoc : (P : ℕ → Type 0) (b : ℕ) → P b → (v : Bytes) → many P v → many P (v ++ b ∷ [])
many-snoc P b p [] m = (p, tt)
many-snoc P b p (c ∷ v) (q, m) = (q, many-snoc P b p v m)

pub plus-snoc : (P : ℕ → Type 0) (b : ℕ) → P b → (v : Bytes) → plus P v → plus P (v ++ b ∷ [])
plus-snoc P b p v = ⨾_snoc b v (many-snoc P b p)

pub plus-one : (P : ℕ → Type 0) (b : ℕ) → P b → plus P (b ∷ [])
plus-one P b p = (b ∷ [], [], refl, (b, refl, p), tt)
