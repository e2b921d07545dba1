-- ===== src/Publish/Hep/Total.antt =====
-- publish/marshal.go: `DecodeHEP` on any input. The loop ends, and what makes it panic.
use heplify.Common.{
  ℕ, zero, suc, ◌+◌, ◌*◌, ◌/◌, ◌%◌, ◌≤◌, ◌<◌, ◌≡◌, ◌≢◌, sym, [], ◌∷◌, ◌++◌, Option, none, some,
  length, drop, length-drop, get_elem?, ltb, ◌==◌, Bool-cases, ==_of_eq, lt→ltb, le→ltb, inl, inr,
  ==→eq, ltb→lt, arith, All, Outcome, ok, err, panic, stuck, >>=-returns, >>=-ne-stuck,
}
use heplify.Common.Bytes.{Bytes, put_uint16, uint16, IsU16, IsByte}
use heplify.Publish.Hep.{HepMsg, new_hep_msg, hep_ver}
use heplify.Publish.Hep.Decode.{
  HepError, checked, set_field, chunk_body, parse_chunk, parse_chunks, parse_hep, parse, decode_hep,
}

ok-ne-stuck {ℓ} : {A : Type ℓ} (a : A) → ◌≢◌ {A = Outcome HepError A} (ok a) stuck
ok-ne-stuck a = λ p. cc

err-ne-stuck {ℓ} : {A : Type ℓ} (e : HepError) → ◌≢◌ {A = Outcome HepError A} (err e) stuck
err-ne-stuck e = λ p. cc

checked-ne-stuck {ℓ} : {A : Type ℓ} (o : Option A) → checked o ≢ stuck
checked-ne-stuck none = λ p. cc
checked-ne-stuck (some a) = λ p. cc

checked-ok {ℓ} : {A : Type ℓ} (o : Option A) {a : A} → checked o ≡ ok a → o ≡ some a
checked-ok none e = cc
checked-ok (some b) e = cc

set_field-ne-stuck : (t : ℕ) (body : Bytes) (h : HepMsg) → set_field t body h ≢ stuck
unfolding set_field
set_field-ne-stuck t body h = ground arith

chunk_body-ne-stuck : (chunk : Bytes) (n : ℕ) → chunk_body chunk n ≢ stuck
unfolding chunk_body
chunk_body-ne-stuck chunk n = ground arith

-- A round that goes on moves by 6 bytes at least, and not past the end.
chunk_body_fits :
    (chunk : Bytes) (n : ℕ) {body : Bytes}
    → chunk_body chunk n ≡ ok body
    → (6 ≤ n) × (n ≤ length chunk)
unfolding chunk_body
chunk_body_fits chunk n e = ground arith

parse_chunk-ne-stuck : (spare chunk : Bytes) (h : HepMsg) → parse_chunk spare chunk h ≢ stuck
unfolding parse_chunk
parse_chunk-ne-stuck spare chunk h =
    let at = λ (i : ℕ). checked (uint16 (drop i (chunk ++ spare))) in
    >>=-ne-stuck (at 2) _ (checked-ne-stuck _) (λ t _.
      >>=-ne-stuck (at 4) _ (checked-ne-stuck _) (λ n _.
        >>=-ne-stuck (chunk_body chunk n) _ (chunk_body-ne-stuck chunk n) (λ body _.
          >>=-ne-stuck (set_field t body h) _ (set_field-ne-stuck t body h)
            (λ h' _. ok-ne-stuck (h', n)))))

parse_chunk_fits :
    (spare chunk : Bytes) (h : HepMsg) (r : HepMsg × ℕ)
    → parse_chunk spare chunk h ≡ ok r
    → (6 ≤ r.1) × (r.1 ≤ length chunk)
unfolding parse_chunk
parse_chunk_fits spare chunk h (h', m) e =
    let (t, f1, e1) = >>=-returns (checked (uint16 (drop 2 (chunk ++ spare)))) _ e in
    let (n, f2, e2) = >>=-returns (checked (uint16 (drop 4 (chunk ++ spare)))) _ f1 in
    let (body, f3, e3) = >>=-returns (chunk_body chunk n) _ f2 in
    let (h'', f4, e4) = >>=-returns (set_field t body h) _ f3 in
    ground (arith, chunk_body_fits chunk n e3)

parse_chunks-ne-stuck :
    (fuel : ℕ) (spare packet : Bytes) (len current : ℕ) (h : HepMsg)
    → length packet ≡ len
    → len < 65536
    → 0 < fuel
    → len < current + fuel
    → parse_chunks fuel spare packet len current h ≢ stuck
unfolding parse_chunks
parse_chunks-ne-stuck zero spare packet len current h whole small some_left enough =
    absurd (omega arith)
parse_chunks-ne-stuck (suc fuel) spare packet len current h whole small some_left enough =
    elim (Bool-cases (ltb current len)) [
      | inr done ↦ rw done (λ p. cc)
      | inl more ↦ rw more (
          >>=-ne-stuck (parse_chunk spare (drop current packet) h) _
            (parse_chunk-ne-stuck spare (drop current packet) h)
            (λ (h', n) e.
              let (lo, hi) = parse_chunk_fits spare (drop current packet) h (h', n) e in
              let next : (current + n) % 65536 ≡ current + n =
                omega (arith, length-drop current packet, ltb→lt current len more) in
              rw next (
                parse_chunks-ne-stuck fuel spare packet len (current + n) h' whole small
                  (omega (arith, ltb→lt current len more)) (omega arith))))
    ]

uint16_bound : (n : ℕ) (b : Bytes) → All IsByte b → {v : ℕ} → uint16 (drop n b) ≡ some v → IsU16 v
unfolding uint16
uint16_bound zero [] all e = cc
uint16_bound zero (a ∷ []) all e = cc
uint16_bound zero (a ∷ b ∷ r) all e = ground arith
uint16_bound (suc n) [] all e = cc
uint16_bound (suc n) (a ∷ r) all e = uint16_bound n r all.1 e

parse_hep-ne-stuck :
    (spare packet : Bytes) (h : HepMsg)
    → All IsByte (packet ++ spare)
    → parse_hep spare packet h ≢ stuck
unfolding parse_hep
parse_hep-ne-stuck spare packet h bytes =
    >>=-ne-stuck (checked (uint16 (drop 4 (packet ++ spare)))) _ (checked-ne-stuck _) (λ len e.
      elim (Bool-cases (len == length packet)) [
        | inr other ↦ rw other (λ p. cc)
        | inl same ↦ rw same (
            parse_chunks-ne-stuck (suc len) spare packet len 6 h
              (sym (==→eq len (length packet) same))
              (uint16_bound 4 (packet ++ spare) bytes (checked-ok _ e)) (omega arith) (omega arith))
      ])

-- `DecodeHEP` ends on every input: it returns a message or an error, or panics.
pub decode_hep-ne-stuck :
    (spare packet : Bytes) → All IsByte (packet ++ spare) → decode_hep spare packet ≢ stuck
unfolding decode_hep parse
decode_hep-ne-stuck spare packet bytes =
    >>=-ne-stuck (checked (get_elem? packet 0)) _ (checked-ne-stuck _) (λ a _.
      elim (Bool-cases (a == 0x48)) [
        | inr other ↦ rw other (λ p. cc)
        | inl same ↦ rw same (
            >>=-ne-stuck (checked (get_elem? packet 3)) _ (checked-ne-stuck _) (λ c _.
              elim (Bool-cases (c == 0x33)) [
                | inr other ↦ rw other (λ p. cc)
                | inl mark ↦ rw mark (parse_hep-ne-stuck spare packet new_hep_msg bytes)
              ]))
      ])

-- A chunk length below 6 in the first chunk makes `DecodeHEP` panic, if the header is right.
pub decode_hep-short_chunk :
    (v1 v2 t1 t2 n : ℕ) (rest spare : Bytes)
    → n < 6
    → 12 + length rest < 65536
    → decode_hep spare
        (hep_ver ++ (put_uint16 (12 + length rest) ++ (v1 ∷ v2 ∷ t1 ∷ t2 ∷ 0 ∷ n ∷ rest)))
      ≡ panic
unfolding decode_hep parse parse_hep parse_chunks parse_chunk uint16 chunk_body
decode_hep-short_chunk v1 v2 t1 t2 n rest spare short small =
    let size = 12 + length rest in
    let joined : size / 256 % 256 * 256 + size % 256 ≡ size = omega arith in
    let low : 0 * 256 + n ≡ n = omega arith in
    let body : Bytes = v1 ∷ v2 ∷ t1 ∷ t2 ∷ 0 ∷ n ∷ rest in
    let packet : Bytes = hep_ver ++ (put_uint16 size ++ body) in
    rw (
      joined,
      low,
      ==_of_eq size (length packet) (omega arith),
      lt→ltb 6 size (omega arith),
      le→ltb (length body) n (omega arith),
      lt→ltb n 6 short,
    )
