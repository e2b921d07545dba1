-- ===== src/Ip4defrag/Build.antt =====
-- ip4defrag/defrag.go: `build` on a complete list gives the datagram.
use heplify.Common.{
  ℕ, ◌+◌, ◌-◌, ◌%◌, ◌≤◌, ◌≡◌, sym, ap, ◌∙◌, List, [], ◌∷◌, ◌++◌, append-nil, append_assoc, length,
  take, drop, drop-drop, take-add, take-all, arith, ==_of_eq, ok,
}
use heplify.Common.Bytes.{Bytes}
use heplify.Ip4defrag.{Ip4, sub16}
use heplify.Ip4defrag.FragmentList.{FragmentList, offset, build_payload, build, rebuilt}
use heplify.Ip4defrag.Datagram.{
  IsFragment, IsDatagram, IsChain, IsPartial, start, stop, last_stop, total, total-le-last_stop,
  le-last_stop,
}

pub offset-start : (d : Bytes) (f : Ip4) → IsDatagram d → IsFragment d f → offset f ≡ start f
offset-start d f (_, size) i = omega (arith, i.within)

-- The slice of the datagram from `p` up to `q`.
abbrev slice : Bytes → ℕ → ℕ → Bytes
slice d p q = take (q - p) (drop p d)

slice-append :
    (d : Bytes) (p q r : ℕ) → p ≤ q → q ≤ r → take (q - p) (drop p d) ++ slice d q r ≡ slice d p r
slice-append d p q r h k =
    let parts : r - p ≡ (q - p) + (r - q) = omega arith in
    let back : p + (q - p) ≡ q = omega arith in
    rw (parts, take-add (q - p) (r - q) (drop p d), drop-drop (q - p) p d, back)

build_payload-chain :
    (fs : List Ip4) (d : Bytes) (p : ℕ) (final : Bytes)
    → IsDatagram d
    → IsChain d p fs
    → p ≤ length d
    → p + total fs ≡ last_stop p fs
    → build_payload fs p final ≡ ok (final ++ slice d p (last_stop p fs))
unfolding build_payload
build_payload-chain [] d p final size c within full =
    let none_left : p - p ≡ 0 = omega arith in rw none_left (ap ok (sym (append-nil final)))
build_payload-chain (f ∷ fs) d p final size (i, lo, c) within full =
    let rest = total-le-last_stop d (stop f) fs c in
    let here : start f ≡ p = omega (arith, rest) in
    let there : offset f ≡ p = offset-start d f size i ∙ here in
    let next : sub16 ((p + f.length) % 65536) 20 ≡ stop f = omega (arith, i.length_is, i.within) in
    let bytes : f.payload ≡ slice d p (stop f) =
      i.cut
      ∙ ap (λ k. take (length f.payload) (drop k d)) here
      ∙ ap (λ k. take k (drop p d)) (omega arith) in
    rw (==_of_eq (offset f) p there, next)
      (build_payload-chain fs d (stop f) (final ++ f.payload) size c i.within (omega arith)
        ∙ ap ok (
            append_assoc final f.payload (slice d (stop f) (last_stop (stop f) fs))
            ∙ ap (λ b. final ++ b)
                (ap (λ b. b ++ slice d (stop f) (last_stop (stop f) fs)) bytes
                  ∙ slice-append d p (stop f) (last_stop (stop f) fs) (omega arith)
                      (le-last_stop d (stop f) fs c))))

-- A list without a gap that reaches the end of the datagram is built into the datagram.
pub build_complete :
    (d : Bytes) (fl : FragmentList) (f : Ip4)
    → IsDatagram d
    → IsPartial d fl
    → fl.highest ≡ length d
    → fl.current ≡ length d
    → build fl f ≡ ok (rebuilt fl f d)
unfolding build
build_complete d fl f size s top sum =
    let end : last_stop 0 fl.list ≡ length d = sym s.highest ∙ top in
    let whole : slice d 0 (last_stop 0 fl.list) ≡ d =
      take-all (last_stop 0 fl.list - 0) d (omega arith) in
    rw (
      build_payload-chain fl.list d 0 [] size s.chain (omega arith) (omega (arith, s.current)),
      whole,
    )
