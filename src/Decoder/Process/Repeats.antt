-- ===== src/Decoder/Process/Repeats.antt =====
-- decoder/decoder.go: a frame that repeats within the life of the SIP cache's entries.
use heplify.Common.{
  ℕ, ◌+◌, ◌≤◌, ◌≡◌, refl, le→ltb, if◌then◌else◌, arith, ap, ◌∙◌, true, false, [], Option, none,
  some, length, drop, ltb, Outcome, ok, err, panic, stuck, inl, inr, Bool-cases, Option-cases,
}
use mathlib.Core.Path.{subst}
use heplify.Common.Bytes.{Bytes}
use heplify.Publish.Hep.{Packet}
use heplify.Decoder.Machine.Grammar.{one_of}
use heplify.Decoder.Machine.Scan.{parse_cseq}
use heplify.Decoder.Correlator.Cache.{Expires}
use heplify.Decoder.Process.Payload.{is_sip_log, nil_bytes}
use heplify.Decoder.Process.Capture.{Outside, Config, CaptureInfo, Agent, new_packet}
use heplify.Decoder.Process.Front.{
  is_empty, is_wanted, Passage, stops, passes, check_duplicate, check_wanted, check_payload,
  check_method, Answer, process_frame, process,
}
use heplify.Decoder.Process.Keeps.{
  Holds, PassageKeeps, AnswerKeeps, either, process_frame-AnswerKeeps,
}

module _ (o : Outside) where
  open o use {cache, gp}

  check_method-PassageKeeps :
      (s : cache.Store) (cfg : Config) (msg : Bytes) (a : Agent o)
      → Holds o s a
      → PassageKeeps o s (check_method o cfg msg a)
  unfolding check_method
  check_method-PassageKeeps s cfg msg a h =
      either o s (is_empty cfg.discard_method) (ok (passes tt a)) _ h
        (elim (Option-cases (parse_cseq msg)) [
          | inl e ↦ rw (PassageKeeps, e) tt
          | inr (t, e) ↦
              rw (PassageKeeps, e)
                (either o s (one_of (nil_bytes t.cseq) a.filter)
                  (ok (stops (record a { cseq = t.cseq })))
                  (ok (passes tt (record a { cseq = t.cseq }))) h h)
        ])

  method_goes-on :
      (s : cache.Store) (cfg : Config) (spare msg : Bytes) (ci : CaptureInfo)
      (r : Outcome ⊥ (Passage o Unit))
      → is_sip_log cfg.mode ≡ false
      → PassageKeeps o s r
      → AnswerKeeps o s (elim r as (λ x. Answer o) [
        | ok (stops a2) ↦ ok (none, a2)
        | ok (passes v a2) ↦ process_frame o cfg ci spare msg (new_packet o a2 ci) a2
        | err e ↦ err e
        | panic ↦ panic
        | stuck ↦ stuck
      ])
  method_goes-on s cfg spare msg ci (ok (stops a2)) m h = h
  method_goes-on s cfg spare msg ci (ok (passes v a2)) m h =
      process_frame-AnswerKeeps o s cfg ci spare msg (new_packet o a2 ci) a2 m h
  method_goes-on s cfg spare msg ci (err e) m h = tt
  method_goes-on s cfg spare msg ci panic m h = tt
  method_goes-on s cfg spare msg ci stuck m h = tt

  -- A frame whose bytes are remembered is a duplicate.
  check_payload-stops :
      (cfg : Config) (msg v : Bytes) (a : Agent o)
      → cfg.dedup ≡ true
      → ltb 42 (length msg) ≡ true
      → cache.get (drop 42 msg) a.inner.sip ≡ some v
      → check_payload o cfg msg a ≡ stops (record a { dup_count = a.dup_count + 1 })
  unfolding check_payload check_wanted check_duplicate
  check_payload-stops cfg msg v a on long seen = rw (check_payload, check_duplicate, long, on, seen)

  check_duplicate-new :
      (cfg : Config) (payload : Bytes) (a : Agent o) (sip' : cache.Store)
      → cfg.dedup ≡ true
      → cache.get payload a.inner.sip ≡ none
      → cache.set payload [] 1 a.inner.sip ≡ some sip'
      → check_duplicate o cfg payload a
        ≡ passes tt (record a { inner = record (a.inner) { sip = sip' } })
  unfolding check_duplicate
  check_duplicate-new cfg payload a sip' on new set = rw (check_duplicate, on, new, set)

  check_wanted-PassageKeeps :
      (s : cache.Store) (cfg : Config) (payload : Bytes) (r : Passage o Unit)
      → PassageKeeps o s (ok r)
      → PassageKeeps o s (ok (check_wanted o cfg payload r))
  unfolding check_wanted
  check_wanted-PassageKeeps s cfg payload (stops a) h = h
  check_wanted-PassageKeeps s cfg payload (passes u a) h =
      elim (Bool-cases (is_wanted cfg payload)) [ inl e ↦ rw e h | inr e ↦ rw e h ]

  check_payload-new :
      (cfg : Config) (msg : Bytes) (a : Agent o) (sip' : cache.Store)
      → cfg.dedup ≡ true
      → ltb 42 (length msg) ≡ true
      → cache.get (drop 42 msg) a.inner.sip ≡ none
      → cache.set (drop 42 msg) [] 1 a.inner.sip ≡ some sip'
      → PassageKeeps o sip' (ok (check_payload o cfg msg a))
  unfolding check_payload
  check_payload-new cfg msg a sip' on long new set =
      rw (check_payload, long, check_duplicate-new cfg (drop 42 msg) a sip' on new set)
        (check_wanted-PassageKeeps sip' cfg (drop 42 msg)
          (passes tt (record a { inner = record (a.inner) { sip = sip' } })) refl)

  payload_goes-on :
      (s : cache.Store) (cfg : Config) (spare msg : Bytes) (ci : CaptureInfo) (r : Passage o Unit)
      → is_sip_log cfg.mode ≡ false
      → PassageKeeps o s (ok r)
      → AnswerKeeps o s (elim r as (λ x. Answer o) [
        | stops a1 ↦ ok (none, a1)
        | passes u a1 ↦ elim (check_method o cfg msg a1) as (λ x. Answer o) [
          | ok (stops a2) ↦ ok (none, a2)
          | ok (passes v a2) ↦ process_frame o cfg ci spare msg (new_packet o a2 ci) a2
          | err e ↦ err e
          | panic ↦ panic
          | stuck ↦ stuck
        ]
      ])
  payload_goes-on s cfg spare msg ci (stops a1) m h = h
  payload_goes-on s cfg spare msg ci (passes u a1) m h =
      method_goes-on s cfg spare msg ci (check_method o cfg msg a1) m
        (check_method-PassageKeeps s cfg msg a1 h)

  process-AnswerKeeps :
      (cfg : Config) (spare msg : Bytes) (ci : CaptureInfo) (a : Agent o) (sip' : cache.Store)
      → cfg.dedup ≡ true
      → is_sip_log cfg.mode ≡ false
      → ltb 42 (length msg) ≡ true
      → cache.get (drop 42 msg) a.inner.sip ≡ none
      → cache.set (drop 42 msg) [] 1 a.inner.sip ≡ some sip'
      → AnswerKeeps o sip' (process o cfg spare msg ci a)
  unfolding process
  process-AnswerKeeps cfg spare msg ci a sip' on mode long new set =
      payload_goes-on sip' cfg spare msg ci (check_payload o cfg msg a) mode
        (check_payload-new cfg msg a sip' on long new set)

  -- The decoder when the clock of its caches has gone on by so many seconds.
  abbrev pub aged : (ℕ → cache.Store → cache.Store) → ℕ → Agent o → Agent o
  aged later t a = record a {
    inner = record (a.inner) {
      sip = later t a.inner.sip;
      sdp = later t a.inner.sdp;
      rtcp = later t a.inner.rtcp;
    };
  }

  -- A payload that is not in the cache is no duplicate.
  check_duplicate-passes :
      (cfg : Config) (payload : Bytes) (a : Agent o)
      → cfg.dedup ≡ true
      → cache.get payload a.inner.sip ≡ none
      → (b : Agent o) × (check_duplicate o cfg payload a ≡ passes tt b)
        × (b.dup_count ≡ a.dup_count)
  unfolding check_duplicate
  check_duplicate-passes cfg payload a on new =
      elim (Option-cases (cache.set payload [] 1 a.inner.sip)) [
        | inl e ↦ (a, rw (check_duplicate, on, new, e) refl, refl)
        | inr (s, e) ↦ (
          record a { inner = record (a.inner) { sip = s } },
          rw (check_duplicate, on, new, e) refl,
          refl,
        )
      ]

  -- Outside of the mode SIPLOG and with deduplication on: a frame of more than 42 bytes, whose bytes from 42
  -- on were not in the SIP cache, has been processed and remembered, and the next frame has the same bytes
  -- from 42 on, whatever its first 42 bytes are. As long as the clock of the cache, in seconds, stands, it is
  -- counted as a duplicate and dropped. Once it has gone on by a second or more, the frame is let through by
  -- the test and not counted. The cache finds what is set until it expires, and no longer.
  pub process_repeated :
      (later : ℕ → cache.Store → cache.Store) (cfg : Config) (spare spare' msg msg' : Bytes)
      (ci ci' : CaptureInfo) (a a' : Agent o) (sip' : cache.Store) (q : Option Packet) (t : ℕ)
      → Expires cache later
      → cfg.dedup ≡ true
      → is_sip_log cfg.mode ≡ false
      → ltb 42 (length msg) ≡ true
      → ltb 42 (length msg') ≡ true
      → drop 42 msg' ≡ drop 42 msg
      → cache.get (drop 42 msg) a.inner.sip ≡ none
      → cache.set (drop 42 msg) [] 1 a.inner.sip ≡ some sip'
      → process o cfg spare msg ci a ≡ ok (q, a')
      → 1 ≤ t
      → (process o cfg spare' msg' ci' (aged later 0 a')
          ≡ ok (none, record (aged later 0 a') { dup_count = a'.dup_count + 1 }))
        × (b : Agent o) × (check_duplicate o cfg (drop 42 msg') (aged later t a') ≡ passes tt b)
        × (b.dup_count ≡ a'.dup_count)
  unfolding process
  process_repeated later cfg spare spare' msg msg' ci ci' a a' sip' q t expires on mode long long'
        same new set done passed =
      let held : AnswerKeeps o sip' (ok (q, a')) =
        subst (AnswerKeeps o sip') done
          (process-AnswerKeeps cfg spare msg ci a sip' on mode long new set) in
      let found : (n : ℕ)
          → cache.get (drop 42 msg') (later n a'.inner.sip) ≡ (if ltb n 1 then some [] else none) =
        λ n.
          ap (λ k. cache.get k (later n a'.inner.sip)) same
          ∙ ap (λ s. cache.get (drop 42 msg) (later n s)) held
          ∙ expires (drop 42 msg) [] 1 n a.inner.sip sip' (omega arith) set in
      let gone : cache.get (drop 42 msg') (later t a'.inner.sip) ≡ none =
        found t ∙ ap (λ b. if b then some [] else none) (le→ltb t 1 passed) in
      let (b, lets_through, same_count) =
        check_duplicate-passes cfg (drop 42 msg') (aged later t a') on gone in
      (
        rw (process, check_payload-stops cfg msg' [] (aged later 0 a') on long' (found 0)) refl,
        b,
        lets_through,
        same_count,
      )
