-- ===== src/Decoder/Process/Whole.antt =====
-- decoder/decoder.go: what `Process` hands on, from the captured bytes to the packet.
use heplify.Common.{
  ◌≡◌, refl, sym, ap, ◌∙◌, false, not, ◌&&◌, Option, none, some, Outcome, ok, err, panic, stuck,
}
use mathlib.Core.Path.{subst}
use heplify.Common.Bytes.{Bytes}
use heplify.Publish.Hep.{Packet}
use heplify.Decoder.Machine.Grammar.{one_of}
use heplify.Decoder.Machine.Contract.{Answers}
use heplify.Decoder.Process.Payload.{nil_bytes}
use heplify.Decoder.Process.Capture.{Outside, Config, CaptureInfo, Agent, new_packet}
use heplify.Decoder.Process.Front.{
  is_empty, Passage, stops, passes, check_payload, check_method, Answer, process_frame, process,
}
use heplify.Decoder.Process.Filters.{
  Same, held_back, method_held, Passes, PassesOk, check_payload-Passes, check_method-Passes,
}
use heplify.Decoder.Process.Hands.{Hands, Sent, process_frame-Hands}

module _ (o : Outside) where
  -- The frame was not held back for its texts, which only one of more than 42 bytes can be, nor for its method.
  abbrev pub Passed : Config → Bytes → Agent o → Option Bytes → CaptureInfo → Packet → Type 0
  Passed cfg msg a method ci q =
      (held_back o cfg msg ≡ false) × (method_held o cfg method a ≡ false) × Sent o a ci q

  moved :
      (a b : Agent o) (ci : CaptureInfo) (q : Packet) → Same o a b → Sent o b ci q → Sent o a ci q
  moved a b ci q (n, w, _) (s, (n', w', t, m)) = (s, (n' ∙ n, w' ∙ ap some w, t, m))

  Hands-weaken :
      (P Q : Packet → Type 0) (r : Answer o)
      → ((q : Packet) → P q → Q q)
      → Hands o P r
      → Hands o Q r
  Hands-weaken P Q (ok (some q, a)) f h = f q h
  Hands-weaken P Q (ok (none, a)) f h = tt
  Hands-weaken P Q (err e) f h = tt
  Hands-weaken P Q panic f h = tt
  Hands-weaken P Q stuck f h = tt

  method_goes-on :
      (cfg : Config) (spare msg : Bytes) (ci : CaptureInfo) (a b : Agent o) (method : Option Bytes)
      (r : Outcome ⊥ (Passage o Unit))
      → (held_back o cfg msg ≡ false) × Same o a b
      → PassesOk o (λ c. (method_held o cfg method b ≡ false) × Same o b c) r
      → Hands o (Passed cfg msg a method ci) (elim r [
        | ok (stops a2) ↦ ok (none, a2)
        | ok (passes v a2) ↦ process_frame o cfg ci spare msg (new_packet o a2 ci) a2
        | err e ↦ err e
        | panic ↦ panic
        | stuck ↦ stuck
      ])
  method_goes-on cfg spare msg ci a b method (ok (stops a2)) h k = tt
  method_goes-on cfg spare msg ci a b method (ok (passes v c)) (held, (n, w, f)) (m, (n', w', f')) =
      let same : Same o a c = (n' ∙ n, w' ∙ w, f' ∙ f) in
      let free =
        ap (λ x. not (is_empty cfg.discard_method) && one_of (nil_bytes method) x) (sym f) ∙ m in
      Hands-weaken (Sent o c ci) (Passed cfg msg a method ci)
        (process_frame o cfg ci spare msg (new_packet o c ci) c)
        (λ q s. (held, free, moved a c ci q same s))
        (process_frame-Hands o c cfg ci spare msg (new_packet o c ci) c (refl, refl, refl, refl))
  method_goes-on cfg spare msg ci a b method (err e) h k = tt
  method_goes-on cfg spare msg ci a b method panic h k = tt
  method_goes-on cfg spare msg ci a b method stuck h k = tt

  payload_goes-on :
      (cfg : Config) (spare msg : Bytes) (ci : CaptureInfo) (a : Agent o) (method : Option Bytes)
      (r : Passage o Unit)
      → Answers msg method
      → Passes o (λ b. (held_back o cfg msg ≡ false) × Same o a b) r
      → Hands o (Passed cfg msg a method ci) (elim r [
        | stops a1 ↦ ok (none, a1)
        | passes u a1 ↦ elim (check_method o cfg msg a1) [
          | ok (stops a2) ↦ ok (none, a2)
          | ok (passes v a2) ↦ process_frame o cfg ci spare msg (new_packet o a2 ci) a2
          | err e ↦ err e
          | panic ↦ panic
          | stuck ↦ stuck
        ]
      ])
  payload_goes-on cfg spare msg ci a method (stops a1) answers h = tt
  payload_goes-on cfg spare msg ci a method (passes u b) answers h =
      method_goes-on cfg spare msg ci a b method (check_method o cfg msg b) h
        (check_method-Passes o cfg msg b method answers)

  -- Whatever the settings and the layers: a packet that `Process` hands on has a payload, the decoder's
  -- node and the capture's times. If its frame has more than 42 bytes, what is behind the first 42 holds the
  -- text to filter and not the text to discard, where these are set; a shorter frame is not tested for them.
  -- And the method of its CSeq line, or the empty text where it has none, is not one to discard.
  pub process-Passed :
      (cfg : Config) (spare msg : Bytes) (ci : CaptureInfo) (a a' : Agent o) (method : Option Bytes)
      (q : Packet)
      → Answers msg method
      → process o cfg spare msg ci a ≡ ok (some q, a')
      → Passed cfg msg a method ci q
  unfolding process
  process-Passed cfg spare msg ci a a' method q answers e =
      subst (Hands o (Passed cfg msg a method ci)) e (
        payload_goes-on cfg spare msg ci a method (check_payload o cfg msg a) answers
          (check_payload-Passes o cfg msg a))
