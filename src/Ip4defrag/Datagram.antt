-- ===== src/Ip4defrag/Datagram.antt =====
-- ip4defrag/defrag.go: what it is for a packet to be a fragment of a datagram, and the shape of
-- a fragment list that holds such fragments.
use heplify.Common.{
  ℕ, ◌+◌, ◌*◌, ◌≤◌, ◌<◌, ◌≡◌, ◌⊎◌, true, false, List, [], ◌∷◌, length, take, drop, arith,
}
use heplify.Common.Bytes.{Bytes}
use heplify.Ip4defrag.{Ip4}
use heplify.Ip4defrag.FragmentList.{FragmentList}

-- Where a fragment's bytes stand in the datagram: from `start` up to, not including, `stop`.
abbrev pub start : Ip4 → ℕ
start f = f.frag_offset * 8

abbrev pub stop : Ip4 → ℕ
stop f = f.frag_offset * 8 + length f.payload

-- A fragment, with a header of 20 bytes, of the datagram with the payload `d`.
pub record IsFragment (d : Bytes) (f : Ip4) : Type 0 where
  pub length_is : f.length ≡ 20 + length f.payload
  pub nonempty : 0 < length f.payload
  pub within : stop f ≤ length d
  pub cut : f.payload ≡ take (length f.payload) (drop (start f) d)
  pub last_stops : f.flags.more_fragments ≡ false → stop f ≡ length d
  pub stops_last : stop f ≡ length d → f.flags.more_fragments ≡ false

-- The largest payload that an IPv4 packet with such a header carries.
abbrev pub IsDatagram : Bytes → Type 0
IsDatagram d = (0 < length d) × (length d ≤ 65515)

abbrev pub Apart : Ip4 → Ip4 → Type 0
Apart f g = (stop f ≤ start g) ⊎ (stop g ≤ start f)

-- In order and without overlaps, from byte `p` on.
abbrev pub IsChain : Bytes → ℕ → List Ip4 → Type 0
IsChain d p [] = Unit
IsChain d p (f ∷ fs) = IsFragment d f × (p ≤ start f) × IsChain d (stop f) fs

abbrev pub last_stop : ℕ → List Ip4 → ℕ
last_stop p [] = p
last_stop p (f ∷ fs) = last_stop (stop f) fs

-- The bytes that the fragments carry.
abbrev pub total : List Ip4 → ℕ
total [] = 0
total (f ∷ fs) = length f.payload + total fs

-- What every list of the defragmenter keeps to, while it is given fragments of one datagram.
pub record IsPartial (d : Bytes) (fl : FragmentList) : Type 0 where
  pub chain : IsChain d 0 fl.list
  pub highest : fl.highest ≡ last_stop 0 fl.list
  pub current : fl.current ≡ total fl.list
  pub final_stops : fl.final_received ≡ true → fl.highest ≡ length d
  pub stops_final : fl.highest ≡ length d → fl.final_received ≡ true

pub total-le-last_stop :
    (d : Bytes) (p : ℕ) (fs : List Ip4) → IsChain d p fs → p + total fs ≤ last_stop p fs
total-le-last_stop d p [] c = omega arith
total-le-last_stop d p (f ∷ fs) (i, lo, c) = omega (arith, total-le-last_stop d (stop f) fs c)

pub le-last_stop : (d : Bytes) (p : ℕ) (fs : List Ip4) → IsChain d p fs → p ≤ last_stop p fs
le-last_stop d p fs c = omega (arith, total-le-last_stop d p fs c)

pub last_stop_within :
    (d : Bytes) (p : ℕ) (fs : List Ip4) → IsChain d p fs → p ≤ length d → last_stop p fs ≤ length d
last_stop_within d p [] c h = h
last_stop_within d p (f ∷ fs) (i, lo, c) h = last_stop_within d (stop f) fs c i.within
