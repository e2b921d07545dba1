-- ===== src/Ip4defrag.antt =====
-- ip4defrag/defrag.go: the IPv4 defragmenter. Packets, its errors, and the checks on a packet.
pub mod FragmentList
pub mod Datagram
pub mod Build
pub mod Place
pub mod Insert
pub mod Deliver
pub mod Overlap
pub mod Defragmenter
pub mod Flows
pub mod Bounds
pub mod Ends
pub mod Shared
mod Runs
use heplify.Common.{
  ℕ, ◌+◌, ◌-◌, ◌*◌, ◌%◌, Bool, true, false, not, ◌&&◌, List, Option, none, some, ltb, ◌==◌,
  if◌then◌else◌,
}
use heplify.Common.Bytes.{Bytes}

-- The flag bits of `layers.IPv4Flag` that the code tests.
pub record Flags : Type 0 where
  pub dont_fragment : Bool
  pub more_fragments : Bool

-- The fields of gopacket's `layers.IPv4` that the code reads or sets.
pub record Ip4 : Type 0 where
  pub version : ℕ
  pub ihl : ℕ
  pub tos : ℕ
  pub length : ℕ
  pub id : ℕ
  pub flags : Flags
  pub frag_offset : ℕ
  pub ttl : ℕ
  pub protocol : ℕ
  pub checksum : ℕ
  pub src_ip : Bytes
  pub dst_ip : Bytes
  pub options : List Bytes
  pub padding : Bytes
  pub payload : Bytes

abbrev pub minimum_fragment_size : ℕ
minimum_fragment_size = 8

abbrev pub maximum_size : ℕ
maximum_size = 65535

abbrev pub maximum_fragment_offset : ℕ
maximum_fragment_offset = 8183

abbrev pub maximum_fragment_list_len : ℕ
maximum_fragment_list_len = 8192

pub data DefragError : Type 0 where
  too_small : ℕ → DefragError
  offset_too_big : ℕ → DefragError
  overrun : ℕ → DefragError
  list_full : DefragError
  invalid_fragment : DefragError
  hole_found : DefragError

-- `a - b` in a uint16, for `b` below 65536.
abbrev pub sub16 : ℕ → ℕ → ℕ
sub16 a b = (a + 65536 - b) % 65536

unfoldable pub dont_defrag : Ip4 → Bool
dont_defrag ip =
    if ip.flags.dont_fragment
    then true
    else if not ip.flags.more_fragments && ip.frag_offset == 0
    then true
    else false

-- `none` is the nil error. The sums are computed in 16 bits.
unfoldable pub security_checks : Ip4 → Option DefragError
security_checks ip =
    let frag_size = sub16 ip.length (ip.ihl * 4 % 65536) in
    let frag_offset = ip.frag_offset * 8 % 65536 in
    let last = (frag_offset + ip.length) % 65536 in
    if ltb frag_size minimum_fragment_size
    then some (too_small frag_size)
    else if ltb maximum_fragment_offset ip.frag_offset
    then some (offset_too_big ip.frag_offset)
    else if ltb maximum_size last
    then some (overrun last)
    else none
