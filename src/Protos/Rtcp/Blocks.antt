-- ===== src/Protos/Rtcp/Blocks.antt =====
-- protos/rtcp.go: the report blocks, against a description of their bytes.
use heplify.Common.{
  ℕ, zero, suc, ◌+◌, ◌*◌, ◌/◌, ◌%◌, ◌<◌, ◌≡◌, refl, List, [], ◌∷◌, ◌++◌, length, drop, drop-append,
  drop-drop, length-append, append_assoc, append-nil, All, ok, panic, arith, sym, ap, ◌∙◌,
}
use heplify.Common.Bytes.{Bytes, IsU32, put_uint32, uint32, uint32-put_uint32}
use heplify.Protos.Rtcp.Packet.{ReportBlock, Scan}
use heplify.Protos.Rtcp.Parse.{read_block, add_report_block, read_blocks}

-- The fields fit their widths, the cumulative number in 24 bits.
pub record IsBlock (b : ReportBlock) : Type 0 where
  pub source : IsU32 b.source_ssrc
  pub cumulative : b.cumulative_lost < 16777216
  pub highest : IsU32 b.highest_seq_no
  pub jitter : IsU32 b.jitter
  pub last : IsU32 b.last_sr
  pub delay : IsU32 b.delay_last_sr

abbrev pub put_uint24 : ℕ → Bytes
put_uint24 v = v / 65536 % 256 ∷ v / 256 % 256 ∷ v % 256 ∷ []

-- The 24 bytes of a block.
unfoldable pub block_bytes : ReportBlock → Bytes
block_bytes b =
    put_uint32 b.source_ssrc
    ++ b.fraction_lost ∷ put_uint24 b.cumulative_lost
    ++ put_uint32 b.highest_seq_no
    ++ put_uint32 b.jitter
    ++ put_uint32 b.last_sr
    ++ put_uint32 b.delay_last_sr

unfoldable pub blocks_bytes : List ReportBlock → Bytes
blocks_bytes [] = []
blocks_bytes (b ∷ bs) = block_bytes b ++ blocks_bytes bs

pub length-block_bytes : (b : ReportBlock) → length (block_bytes b) ≡ 24
unfolding block_bytes
length-block_bytes b = refl

pub length-blocks_bytes : (bs : List ReportBlock) → length (blocks_bytes bs) ≡ 24 * length bs
unfolding blocks_bytes
length-blocks_bytes [] = refl
length-blocks_bytes (b ∷ bs) = omega (
  arith,
  length-append (block_bytes b) (blocks_bytes bs),
  length-block_bytes b,
  length-blocks_bytes bs,
)

read_block-block_bytes :
    (b : ReportBlock) (rest : Bytes) → IsBlock b → read_block (block_bytes b ++ rest) ≡ ok b
unfolding read_block block_bytes
read_block-block_bytes b rest h =
    let cumulative : b.cumulative_lost / 65536 % 256 * 65536
          + b.cumulative_lost / 256 % 256 * 256
          + b.cumulative_lost % 256
        ≡ b.cumulative_lost =
      omega (arith, h.cumulative) in
    rw (
      uint32-put_uint32 b.source_ssrc _ h.source,
      uint32-put_uint32 b.highest_seq_no _ h.highest,
      uint32-put_uint32 b.jitter _ h.jitter,
      uint32-put_uint32 b.last_sr _ h.last,
      uint32-put_uint32 b.delay_last_sr rest h.delay,
      cumulative,
    )

-- What reading the blocks makes of the loop's variables.
abbrev pub with_blocks : List ReportBlock → Scan → Scan
with_blocks bs s = record s {
  pkt = record (s.pkt) { report_blocks = s.pkt.report_blocks ++ bs };
  offset = s.offset + 24 * length bs;
}

pub with_blocks_none : (s : Scan) → with_blocks [] s ≡ s
with_blocks_none s =
    let here : s.offset + 0 ≡ s.offset = omega arith in rw (append-nil s.pkt.report_blocks, here)

with_blocks_step :
    (b : ReportBlock) (bs : List ReportBlock) (s : Scan)
    → with_blocks bs (record s { pkt = add_report_block b s.pkt; offset = s.offset + 24 })
      ≡ with_blocks (b ∷ bs) s
with_blocks_step b bs s =
    let at : s.offset + 24 + 24 * length bs ≡ s.offset + 24 * suc (length bs) = omega arith in
    rw (append_assoc s.pkt.report_blocks (b ∷ []) bs, at)

-- The loop reads exactly the blocks that lie at the offset.
pub read_blocks-blocks_bytes :
    (bs : List ReportBlock) (packet rest : Bytes) (s : Scan)
    → All IsBlock bs
    → drop s.offset packet ≡ blocks_bytes bs ++ rest
    → read_blocks (length bs) packet s ≡ ok (with_blocks bs s)
unfolding read_blocks blocks_bytes
read_blocks-blocks_bytes [] packet rest s h at = ap ok (sym (with_blocks_none s))
read_blocks-blocks_bytes (b ∷ bs) packet rest s (hb, hbs) at =
    let first : drop s.offset packet ≡ block_bytes b ++ (blocks_bytes bs ++ rest) =
      at ∙ append_assoc (block_bytes b) (blocks_bytes bs) rest in
    let behind : drop (s.offset + 24) packet ≡ blocks_bytes bs ++ rest =
      sym (drop-drop 24 s.offset packet)
      ∙ ap (drop 24) first
      ∙ drop-append 24 (block_bytes b) (blocks_bytes bs ++ rest) (sym (length-block_bytes b)) in
    rw (first, read_block-block_bytes b (blocks_bytes bs ++ rest) hb)
      (read_blocks-blocks_bytes bs packet rest
          (record s { pkt = add_report_block b s.pkt; offset = s.offset + 24 }) hbs behind
        ∙ ap ok (with_blocks_step b bs s))

-- If the packet ends behind the blocks but the header announces more, the next read is out of range.
pub read_blocks-missing :
    (bs : List ReportBlock) (count : ℕ) (packet : Bytes) (s : Scan)
    → All IsBlock bs
    → length bs < count
    → drop s.offset packet ≡ blocks_bytes bs
    → read_blocks count packet s ≡ panic
unfolding read_blocks blocks_bytes read_block uint32
read_blocks-missing bs zero packet s h more at = absurd (omega arith)
read_blocks-missing [] (suc n) packet s h more at = rw at
read_blocks-missing (b ∷ bs) (suc n) packet s (hb, hbs) more at =
    let behind : drop (s.offset + 24) packet ≡ blocks_bytes bs =
      sym (drop-drop 24 s.offset packet)
      ∙ ap (drop 24) at
      ∙ drop-append 24 (block_bytes b) (blocks_bytes bs) (sym (length-block_bytes b)) in
    rw (at, read_block-block_bytes b (blocks_bytes bs) hb)
      (read_blocks-missing bs n packet
        (record s { pkt = add_report_block b s.pkt; offset = s.offset + 24 }) hbs (omega arith)
        behind)
