-- ===== src/Sniffer/Buffers.antt =====
-- sniffer/afpacket.go: the sizes of the ring that af_packet captures into.
use heplify.Common.{
  ℕ, ◌+◌, ◌-◌, ◌%◌, not, ◌&&◌, ◌||◌, Outcome, ok, err, panic, stuck, lt→ltb, ==_of_ne, ◌*◌, ◌/◌,
  ◌≤◌, ◌<◌, ◌≡◌, refl, Option, none, some, ltb, ◌==◌, if◌then◌else◌, arith, Bool-cases, ltb→lt, inl,
  inr,
}
use native.Mathlib.Nat.{
  mul-div-le, le-div_iff_mul-le, lt-div-mul-add, div-mul-le_self, add-mul, div-lt_iff_lt-mul,
  mod-eq_of_lt,
}

-- The size of Go's int: on 32-bit machines it is the small one.
pub data IntWidth : Type 0 where
  int_32 int_64 : IntWidth

-- The number of an int's values. From half of them on it is negative, in two's complement.
abbrev pub values : IntWidth → ℕ
values int_32 = 4294967296
values int_64 = 18446744073709551616

abbrev pub half : IntWidth → ℕ
half int_32 = 2147483648
half int_64 = 9223372036854775808

abbrev magnitude : IntWidth → ℕ → ℕ
magnitude w a = if ltb a (half w) then a else values w - a

-- `a / b`, which rounds to 0; `none` is the panic for 0.
unfoldable pub quotient : IntWidth → ℕ → ℕ → Option ℕ
quotient w a b =
    let q = magnitude w a / magnitude w b in
    let negated = (values w - q) % values w in
    let alike =
      (ltb a (half w) && ltb b (half w)) || (not (ltb a (half w)) && not (ltb b (half w))) in
    if b == 0 then none else some (if alike then q else negated)

-- The arguments are positive ints.
unfoldable pub frame_size : IntWidth → ℕ → ℕ → ℕ
frame_size w snaplen page_size =
    if ltb snaplen page_size
    then page_size / (page_size / snaplen)
    else (snaplen / page_size + 1) * page_size % values w

pub data SizeError : Type 0 where
  buffer_too_small : SizeError

abbrev sized : ℕ → ℕ → Option ℕ → Outcome SizeError (ℕ × (ℕ × ℕ))
sized frame block none = panic
sized frame block (some blocks) =
    if blocks == 0 then err buffer_too_small else ok (frame, (block, blocks))

-- The sizes of a frame and of a block and the number of blocks.
unfoldable pub afpacket_compute_size : IntWidth → ℕ → ℕ → ℕ → Outcome SizeError (ℕ × (ℕ × ℕ))
unfolding frame_size quotient
afpacket_compute_size w target_size_mb snaplen page_size =
    let frame = frame_size w snaplen page_size in
    let block = frame * 128 % values w in
    sized frame block (quotient w (target_size_mb * 1024 % values w * 1024 % values w) block)

below_half : (w : IntWidth) (n : ℕ) → n * 128 < half w → n < values w
below_half int_32 n fits = omega arith
below_half int_64 n fits = omega arith

-- The size of a frame, as a number without bounds.
unfoldable pub whole_frame : ℕ → ℕ → ℕ
whole_frame snaplen page_size =
    if ltb snaplen page_size
    then page_size / (page_size / snaplen)
    else (snaplen / page_size + 1) * page_size

-- A frame holds a captured packet.
whole_frame-holds :
    (snaplen page_size : ℕ) → 0 < snaplen → 0 < page_size → snaplen ≤ whole_frame snaplen page_size
unfolding whole_frame
whole_frame-holds snaplen page_size some_snap some_page =
    elim (Bool-cases (ltb snaplen page_size)) [
      | inl e ↦
          let parts = page_size / snaplen in
          let fits : snaplen * parts ≤ page_size = mul-div-le page_size snaplen in
          let one_part : 0 < parts =
            (le-div_iff_mul-le some_snap).1 (omega (arith, ltb→lt snaplen page_size e)) in
          rw e ((le-div_iff_mul-le one_part).1 fits)
      | inr e ↦
          let below : snaplen < snaplen / page_size * page_size + page_size =
            lt-div-mul-add some_page in
          rw (e, add-mul) (omega (arith, below))
    ]

frame_size-whole :
    (w : IntWidth) (snaplen page_size : ℕ)
    → whole_frame snaplen page_size * 128 < half w
    → frame_size w snaplen page_size ≡ whole_frame snaplen page_size
unfolding frame_size whole_frame
frame_size-whole w snaplen page_size fits = elim (Bool-cases (ltb snaplen page_size)) [
  | inl e ↦ rw e refl
  | inr e ↦
      let within : (if ltb snaplen page_size
            then page_size / (page_size / snaplen)
            else (snaplen / page_size + 1) * page_size)
          ≡ (snaplen / page_size + 1) * page_size =
        rw e refl in
      let small : (snaplen / page_size + 1) * page_size < values w =
        below_half w _ (omega (arith, within)) in
      rw (e, mod-eq_of_lt small) refl
]

quotient-positive :
    (w : IntWidth) (a b : ℕ) → a < half w → b < half w → 0 < b → quotient w a b ≡ some (a / b)
unfolding quotient
quotient-positive w a b ha hb pb =
    rw (lt→ltb a (half w) ha, lt→ltb b (half w) hb, ==_of_ne b 0 (λ e. omega arith)) refl

-- What a size is for: a frame holds a captured packet and a block 128 frames, there is a block, the
-- blocks fit into the target, and one more would exceed it. Without a size one block exceeds it.
abbrev pub Fits : ℕ → ℕ → ℕ → Outcome SizeError (ℕ × (ℕ × ℕ)) → Type 0
Fits target snaplen page_size (err e) = target < whole_frame snaplen page_size * 128
Fits target snaplen page_size (ok (frame, (block, blocks))) =
    (snaplen ≤ frame)
    × (block ≡ frame * 128)
    × (0 < blocks)
    × (blocks * block ≤ target)
    × (target < blocks * block + block)
Fits target snaplen page_size panic = ⊥
Fits target snaplen page_size stuck = ⊥

-- No product wraps.
target-whole :
    (w : IntWidth) (mb : ℕ)
    → mb * 1024 * 1024 < half w
    → mb * 1024 % values w * 1024 % values w ≡ mb * 1024 * 1024
target-whole int_32 mb fits = omega arith
target-whole int_64 mb fits = omega arith

block-whole :
    (w : IntWidth) (frame : ℕ) → frame * 128 < half w → frame * 128 % values w ≡ frame * 128
block-whole int_32 frame fits = omega arith
block-whole int_64 frame fits = omega arith

-- For a positive snapshot length and page size, where neither the bytes of a block nor those of the target
-- reach half of the values of an int: a frame holds a captured packet and a block 128 frames, there is a
-- block, the blocks fit into the target, and one more would exceed it; the error is given if one block
-- already exceeds the target, and nothing panics.
pub afpacket_compute_size-Fits :
    (w : IntWidth) (target_size_mb snaplen page_size : ℕ)
    → 0 < snaplen
    → 0 < page_size
    → whole_frame snaplen page_size * 128 < half w
    → target_size_mb * 1024 * 1024 < half w
    → Fits
        (target_size_mb * 1024 * 1024)
        snaplen
        page_size
        (afpacket_compute_size w target_size_mb snaplen page_size)
unfolding afpacket_compute_size
afpacket_compute_size-Fits w target_size_mb snaplen page_size some_snap some_page small_block
      small_target =
    let frame = whole_frame snaplen page_size in
    let target = target_size_mb * 1024 * 1024 in
    let blocks = target / (frame * 128) in
    let holds : snaplen ≤ frame = whole_frame-holds snaplen page_size some_snap some_page in
    let within : blocks * (frame * 128) ≤ target = div-mul-le_self target (frame * 128) in
    let positive : 0 < frame * 128 = omega arith in
    let next : target < blocks * (frame * 128) + frame * 128 = lt-div-mul-add positive in
    let below : blocks < 1 → target < 1 * (frame * 128) = (div-lt_iff_lt-mul positive).0 in
    rw
      (
        afpacket_compute_size,
        frame_size-whole w snaplen page_size small_block,
        block-whole w frame small_block,
        target-whole w target_size_mb small_target,
        quotient-positive w target (frame * 128) small_target small_block positive,
      )
      (elim (Bool-cases (blocks == 0)) [
        | inl e ↦ rw e (omega (arith, below (ground arith)))
        | inr e ↦ rw e (holds, refl, ground arith, within, next)
      ])
