-- ===== src/Decoder/Process/Filters.antt =====
-- decoder/decoder.go: the tests in front of `Process`, and what they hold back.
use heplify.Common.{
  ◌≡◌, refl, ap, ◌∙◌, Bool, true, false, not, ◌&&◌, [], Option, none, some, length, drop, ltb,
  if◌then◌else◌, Outcome, ok, inl, inr, Bool-cases, Option-cases,
}
use heplify.Common.Bytes.{Bytes}
use heplify.Decoder.Machine.Scan.{Scan, parse_cseq}
use heplify.Decoder.Machine.Grammar.{one_of}
use heplify.Decoder.Machine.Contract.{Answers}
use heplify.Decoder.Machine.Unique.{parse_cseq-answer}
use heplify.Decoder.Process.Payload.{nil_bytes}
use heplify.Decoder.Process.Capture.{Outside, Config, CaptureInfo, Agent}
use heplify.Decoder.Process.Front.{
  is_empty, is_wanted, Passage, stops, passes, check_duplicate, check_wanted, check_payload,
  check_method, process,
}

module _ (o : Outside) where
  open o use {gp}

  check_method-stops :
      (cfg : Config) (msg : Bytes) (a : Agent o) (s : Scan)
      → is_empty cfg.discard_method ≡ false
      → parse_cseq msg ≡ some s
      → one_of (nil_bytes s.cseq) a.filter ≡ true
      → check_method o cfg msg a ≡ ok (stops (record a { cseq = s.cseq }))
  unfolding check_method
  check_method-stops cfg msg a s on parsed held = rw (on, check_method, parsed, held)

  -- What the tests leave alone in the decoder.
  abbrev pub Same : Agent o → Agent o → Type 0
  Same a b = (b.node_id ≡ a.node_id) × (b.node_pw ≡ a.node_pw) × (b.filter ≡ a.filter)

  abbrev pub held_back : Config → Bytes → Bool
  held_back cfg msg = ltb 42 (length msg) && not (is_wanted cfg (drop 42 msg))

  abbrev pub method_held : Config → Option Bytes → Agent o → Bool
  method_held cfg method a = not (is_empty cfg.discard_method) && one_of (nil_bytes method) a.filter

  -- Nothing that decoding changes: no layer was read, no datagram put together, no message correlated.
  abbrev pub IsUndecoded : Agent o → Agent o → Type 0
  IsUndecoded a b =
      Same a b
      × (b.flows ≡ a.flows)
      × (b.frag_count ≡ a.frag_count)
      × (b.ip4_count ≡ a.ip4_count)
      × (b.ip6_count ≡ a.ip6_count)
      × (b.inner.stats ≡ a.inner.stats)
      × (b.inner.sdp ≡ a.inner.sdp)
      × (b.inner.rtcp ≡ a.inner.rtcp)

  -- The decoder of a frame whose method is one to discard: what the tests before left, and the method where
  -- they let the frame through.
  abbrev pub dropped : Option Bytes → Passage o Unit → Agent o
  dropped method (stops b) = b
  dropped method (passes u b) = record b { cseq = method }

  -- A test that the frame passes has a decoder and a property afterwards.
  abbrev pub Passes : (Agent o → Type 0) → Passage o Unit → Type 0
  Passes P (stops a) = Unit
  Passes P (passes u a) = P a

  either :
      (P : Agent o → Type 0) (b : Bool) (x y : Passage o Unit)
      → Passes P x
      → Passes P y
      → Passes P (if b then x else y)
  either P true x y h k = h
  either P false x y h k = k

  check_duplicate-Passes :
      (cfg : Config) (payload : Bytes) (a : Agent o)
      → Passes (Same a) (check_duplicate o cfg payload a)
  unfolding check_duplicate
  check_duplicate-Passes cfg payload a =
      either (Same a) cfg.dedup _ (passes tt a)
        (elim (Option-cases (o.cache.get payload a.inner.sip)) [
          | inl e ↦ rw e (elim (Option-cases (o.cache.set payload [] 1 a.inner.sip)) [
            | inl f ↦ rw f (refl, refl, refl)
            | inr (sip', f) ↦ rw f (refl, refl, refl)
          ])
          | inr (v, e) ↦ rw e tt
        ])
        (refl, refl, refl)

  check_wanted-Passes :
      (cfg : Config) (payload : Bytes) (a : Agent o) (r : Passage o Unit)
      → Passes (Same a) r
      → Passes
          (λ b. (not (is_wanted cfg payload) ≡ false) × Same a b)
          (check_wanted o cfg payload r)
  unfolding check_wanted
  check_wanted-Passes cfg payload a (stops b) h = tt
  check_wanted-Passes cfg payload a (passes u b) h = elim (Bool-cases (is_wanted cfg payload)) [
    | inl e ↦ rw e (refl, h)
    | inr e ↦ rw e tt
  ]

  pub check_payload-Passes :
      (cfg : Config) (msg : Bytes) (a : Agent o)
      → Passes (λ b. (held_back cfg msg ≡ false) × Same a b) (check_payload o cfg msg a)
  unfolding check_payload
  check_payload-Passes cfg msg a = elim (Bool-cases (ltb 42 (length msg))) [
    | inl e ↦ rw e (
        check_wanted-Passes cfg (drop 42 msg) a (check_duplicate o cfg (drop 42 msg) a)
          (check_duplicate-Passes cfg (drop 42 msg) a))
    | inr e ↦ rw e (refl, (refl, refl, refl))
  ]

  Passes-weaker :
      (A : Type 0) (P : Agent o → Type 0) (r : Passage o Unit)
      → Passes (λ b. A × P b) r
      → Passes P r
  Passes-weaker A P (stops b) h = tt
  Passes-weaker A P (passes u b) (_, h) = h

  -- The same for a test that may panic.
  abbrev pub PassesOk : (Agent o → Type 0) → Outcome ⊥ (Passage o Unit) → Type 0
  PassesOk P (ok r) = Passes P r
  PassesOk P r = Unit

  pub check_method-Passes :
      (cfg : Config) (msg : Bytes) (a : Agent o) (method : Option Bytes)
      → Answers msg method
      → PassesOk (λ b. (method_held cfg method a ≡ false) × Same a b) (check_method o cfg msg a)
  unfolding check_method
  check_method-Passes cfg msg a method answers = elim (Bool-cases (is_empty cfg.discard_method)) [
    | inl e ↦ rw e (refl, (refl, refl, refl))
    | inr e ↦
        let (s, parsed, same) = parse_cseq-answer msg method answers in
        elim (Bool-cases (one_of (nil_bytes method) a.filter)) [
          | inl f ↦ rw (e, check_method, parsed, same, f) tt
          | inr f ↦ rw (e, check_method, parsed, same, f) (refl, (refl, refl, refl))
        ]
  ]

  check_duplicate-IsUndecoded :
      (cfg : Config) (payload : Bytes) (method : Option Bytes) (a : Agent o)
      → IsUndecoded a (dropped method (check_duplicate o cfg payload a))
  unfolding check_duplicate
  check_duplicate-IsUndecoded cfg payload method a = elim (Bool-cases cfg.dedup) [
    | inr e ↦ rw e same
    | inl e ↦ elim (Option-cases (o.cache.get payload a.inner.sip)) [
      | inr (v, f) ↦ rw (e, f) same
      | inl f ↦ elim (Option-cases (o.cache.set payload [] 1 a.inner.sip)) [
        | inl g ↦ rw (e, f, g) same
        | inr (sip', g) ↦ rw (e, f, g) same
      ]
    ]
  ]
    where
      same : IsUndecoded a a
      same = ((refl, refl, refl), refl, refl, refl, refl, refl, refl, refl)

  check_wanted-IsUndecoded :
      (cfg : Config) (payload : Bytes) (method : Option Bytes) (a : Agent o) (r : Passage o Unit)
      → IsUndecoded a (dropped method r)
      → IsUndecoded a (dropped method (check_wanted o cfg payload r))
  unfolding check_wanted
  check_wanted-IsUndecoded cfg payload method a (stops b) h = h
  check_wanted-IsUndecoded cfg payload method a (passes u b) h =
      elim (Bool-cases (is_wanted cfg payload)) [ inl e ↦ rw e h | inr e ↦ rw e h ]

  check_payload-IsUndecoded :
      (cfg : Config) (msg : Bytes) (method : Option Bytes) (a : Agent o)
      → IsUndecoded a (dropped method (check_payload o cfg msg a))
  unfolding check_payload
  check_payload-IsUndecoded cfg msg method a = elim (Bool-cases (ltb 42 (length msg))) [
    | inl e ↦ rw e (
        check_wanted-IsUndecoded cfg (drop 42 msg) method a (check_duplicate o cfg (drop 42 msg) a)
          (check_duplicate-IsUndecoded cfg (drop 42 msg) method a))
    | inr e ↦ rw e ((refl, refl, refl), refl, refl, refl, refl, refl, refl, refl)
  ]

  method-discards :
      (cfg : Config) (spare msg : Bytes) (ci : CaptureInfo) (a : Agent o) (method : Option Bytes)
      (r : Passage o Unit)
      → check_payload o cfg msg a ≡ r
      → Passes (Same a) r
      → is_empty cfg.discard_method ≡ false
      → Answers msg method
      → one_of (nil_bytes method) a.filter ≡ true
      → process o cfg spare msg ci a ≡ ok (none, dropped method r)
  unfolding process
  method-discards cfg spare msg ci a method (stops b) e same on answers held = rw (process, e) refl
  method-discards cfg spare msg ci a method (passes u b) e (_, _, f) on answers held =
      let (s, parsed, got) = parse_cseq-answer msg method answers in
      let held' =
        ap (λ m. one_of (nil_bytes m) b.filter) got ∙ ap (one_of (nil_bytes method)) f ∙ held in
      rw (process, e, check_method-stops cfg msg b s on parsed held', got) refl

  -- Where methods are to be discarded: a frame whose method is one of them is dropped before it is decoded,
  -- whatever the other tests say of it. The method is that of its first CSeq line, or the empty text where
  -- it has none. Nothing is handed on, and of the decoder only what the tests before change is changed, and
  -- `d.CSeq` where they let the frame through: no layer is counted, no fragment kept, and the SDP and RTCP
  -- caches are as they were.
  pub process_discards :
      (cfg : Config) (spare msg : Bytes) (ci : CaptureInfo) (a : Agent o) (method : Option Bytes)
      → is_empty cfg.discard_method ≡ false
      → Answers msg method
      → one_of (nil_bytes method) a.filter ≡ true
      → (process o cfg spare msg ci a ≡ ok (none, dropped method (check_payload o cfg msg a)))
        × IsUndecoded a (dropped method (check_payload o cfg msg a))
  process_discards cfg spare msg ci a method on answers held = (
    method-discards cfg spare msg ci a method (check_payload o cfg msg a) refl
        (Passes-weaker (held_back cfg msg ≡ false) (Same a) (check_payload o cfg msg a)
          (check_payload-Passes cfg msg a))
        on answers held,
    check_payload-IsUndecoded cfg msg method a,
  )
