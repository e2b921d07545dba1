-- ===== src/Protos/Rtcp/Bounds.antt =====
-- protos/rtcp.go: the loop of `ParseRTCP` ends.
use heplify.Common.{
  ℕ, zero, suc, ◌+◌, ◌-◌, ◌<◌, ◌≢◌, Bool, true, false, Bool-cases, inl, inr, Option, none, some,
  length, drop, get_elem?, ltb, ◌==◌, if◌then◌else◌, ok, stuck, ◌>>=◌, >>=-ne-stuck, ltb→lt, arith,
}
use heplify.Common.Bytes.{Bytes, uint16, uint32}
use heplify.Protos.Rtcp.Packet.{RtcpPacket, Scan, Parse, need}
use heplify.Protos.Rtcp.Parse.{
  read_block, read_blocks, read_reports, read_sr, read_rr, read_sdes, read_metrics, read_xr_block,
  read_xr, read_section, read_header, is_fishy, scan, start, parse_rtcp,
}

module _ {ℓ κ} {A : Type ℓ} {B : Type κ} where
  -- A read ends, in a value or a panic.
  reads_on : (o : Option A) (k : A → Parse B) → ((a : A) → k a ≢ stuck) → (need o >>= k) ≢ stuck
  reads_on none k h = λ e. cc
  reads_on (some a) k h = h a

ok-ne-stuck {ℓ} : {A : Type ℓ} (a : A) → (let r : Parse A = ok a in r) ≢ stuck
ok-ne-stuck a e = cc

chosen {ℓ} :
    {A : Type ℓ} (b : Bool) (p q : Parse A) → p ≢ stuck → q ≢ stuck → (if b then p else q) ≢ stuck
chosen true p q hp hq = hp
chosen false p q hp hq = hq

read_block-ne-stuck : (d : Bytes) → read_block d ≢ stuck
unfolding read_block
read_block-ne-stuck d = reads_on (uint32 d) _ λ a. reads_on (get_elem? d 4) _ λ b.
    reads_on (get_elem? d 5) _ λ c. reads_on (get_elem? d 6) _ λ e. reads_on (get_elem? d 7) _ λ f.
      reads_on (uint32 (drop 8 d)) _ λ g.
        reads_on (uint32 (drop 12 d)) _
          λ h. reads_on (uint32 (drop 16 d)) _ λ i. reads_on (uint32 (drop 20 d)) _ λ j. λ stop. cc

read_blocks-ne-stuck : (n : ℕ) (packet : Bytes) (s : Scan) → read_blocks n packet s ≢ stuck
unfolding read_blocks
read_blocks-ne-stuck zero packet s = ok-ne-stuck s
read_blocks-ne-stuck (suc n) packet s =
    >>=-ne-stuck (read_block (drop s.offset packet)) _ (read_block-ne-stuck _)
      λ b e. read_blocks-ne-stuck n packet _

read_reports-ne-stuck :
    (count len : ℕ) (packet : Bytes) (s : Scan) → read_reports count len packet s ≢ stuck
unfolding read_reports
read_reports-ne-stuck count len packet s =
    chosen _ _ _ (read_blocks-ne-stuck count packet s) (ok-ne-stuck s)

read_metrics-ne-stuck : (d : Bytes) (t : ℕ) → read_metrics d t ≢ stuck
unfolding read_metrics
read_metrics-ne-stuck d t = reads_on (uint32 (drop 8 d)) _ λ a. reads_on (get_elem? d 12) _ λ b.
    reads_on (get_elem? d 13) _ λ c. reads_on (get_elem? d 14) _ λ e.
      reads_on (get_elem? d 15) _ λ f. reads_on (uint16 (drop 16 d)) _ λ g.
        reads_on (uint16 (drop 18 d)) _
          λ h. reads_on (uint16 (drop 20 d)) _ λ i. reads_on (uint16 (drop 22 d)) _ λ j. λ stop. cc

module _ (count len : ℕ) (packet : Bytes) (s : Scan) where
  read_sr-ne-stuck : read_sr count len packet s ≢ stuck
  unfolding read_sr
  read_sr-ne-stuck = chosen _ _ _ (ok-ne-stuck _) (
      let d = drop s.offset packet in
      reads_on (uint32 d) _ λ a. reads_on (uint32 (drop 4 d)) _ λ b.
        reads_on (uint32 (drop 8 d)) _ λ c. reads_on (uint32 (drop 12 d)) _ λ e.
          reads_on (uint32 (drop 16 d)) _
            λ f. reads_on (uint32 (drop 20 d)) _ λ g. read_reports-ne-stuck count len packet _)

  read_rr-ne-stuck : read_rr count len packet s ≢ stuck
  unfolding read_rr
  read_rr-ne-stuck =
      chosen _ _ _ (ok-ne-stuck _)
        (reads_on (uint32 (drop s.offset packet)) _ λ a. read_reports-ne-stuck count len packet _)

  read_sdes-ne-stuck : read_sdes len packet s ≢ stuck
  unfolding read_sdes
  read_sdes-ne-stuck =
      chosen _ _ _ (ok-ne-stuck _) (reads_on (uint32 (drop s.offset packet)) _ λ a. ok-ne-stuck _)

  read_xr_block-ne-stuck : (t : ℕ) → read_xr_block t len packet s ≢ stuck
  unfolding read_xr_block
  read_xr_block-ne-stuck t =
      chosen _ (read_metrics (drop s.offset packet) t) _
        (read_metrics-ne-stuck (drop s.offset packet) t) (ok-ne-stuck _)

  read_xr-ne-stuck : read_xr len packet s ≢ stuck
  unfolding read_xr
  read_xr-ne-stuck = chosen _ _ _ (ok-ne-stuck _) (
      reads_on (uint32 (drop s.offset packet)) _ λ a.
        reads_on (get_elem? (drop s.offset packet) 4) _ λ t.
          >>=-ne-stuck (read_xr_block t len packet s) _ (read_xr_block-ne-stuck t) λ x e stop. cc)

  read_section-ne-stuck : (type : ℕ) → read_section type count len packet s ≢ stuck
  unfolding read_section
  read_section-ne-stuck type = chosen (type == 200) _ _ read_sr-ne-stuck (
      chosen (type == 201) _ _ read_rr-ne-stuck (
        chosen (type == 202) _ _ read_sdes-ne-stuck (
          chosen (type == 204) _ _ (ok-ne-stuck _) (
            chosen (type == 203) _ _ (ok-ne-stuck _)
              (chosen (type == 207) _ _ read_xr-ne-stuck (ok-ne-stuck s))))))

read_header-ne-stuck : (d : Bytes) → read_header d ≢ stuck
unfolding read_header
read_header-ne-stuck d =
    reads_on (get_elem? d 0) _
      λ a. reads_on (get_elem? d 1) _ λ b. reads_on (uint16 (drop 2 d)) _ λ c. λ stop. cc

-- Fuel above the length that is left is enough.
scan-ne-stuck :
    (fuel : ℕ) (packet : Bytes) (data_len : ℕ) (s : Scan)
    → data_len < fuel
    → scan fuel packet data_len s ≢ stuck
unfolding scan
scan-ne-stuck zero packet data_len s h = absurd (omega arith)
scan-ne-stuck (suc fuel) packet data_len s h = elim (Bool-cases (ltb 0 data_len)) [
  | inr over ↦ rw over (ok-ne-stuck s)
  | inl more ↦
      let some_left = ltb→lt 0 data_len more in
      rw more (
        chosen _ _ _ (ok-ne-stuck _) (
          >>=-ne-stuck (read_header (drop s.offset packet)) _ (read_header-ne-stuck _) λ h1 e.
            chosen (is_fishy h1 data_len) _ _ (ok-ne-stuck _) (
              >>=-ne-stuck
                (read_section h1.type h1.report_count h1.len packet (record s {
                  offset = s.offset + 4;
                  pkt = record (s.pkt) { type = h1.type; report_count = h1.report_count };
                }))
                _ (read_section-ne-stuck h1.report_count h1.len packet _ h1.type)
                λ s2 e2. scan-ne-stuck fuel packet (data_len - (h1.len + 4)) s2 (omega arith))))
]

-- `ParseRTCP` ends on every packet: its loop never runs out of fuel.
pub parse_rtcp-ne-stuck :
    (json : RtcpPacket → Option Bytes) (packet : Bytes) → parse_rtcp json packet ≢ stuck
unfolding parse_rtcp
parse_rtcp-ne-stuck json packet = chosen _ _ _ (ok-ne-stuck _) (
    >>=-ne-stuck (scan (suc (length packet)) packet (length packet) start) _
      (scan-ne-stuck (suc (length packet)) packet (length packet) start (omega arith))
      λ s e stop. cc)
