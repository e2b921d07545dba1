-- ===== src/Publish/Hep.antt =====
-- publish/marshal.go: the HEP3 message format. The packet and message records, and the chunk types.
pub mod Encode
pub mod Decode
pub mod Chunks
pub mod RoundTrip
pub mod Total
mod Runs
use heplify.Common.{ℕ, ◌%◌, ◌+◌, List, [], ◌∷◌, Option, none, some, length}
use heplify.Common.Bytes.{Bytes}

-- `decoder.Packet` and `HepMsg`, which have the same fields. `none` is a nil slice.
pub record Packet : Type 0 where
  pub version : ℕ
  pub protocol : ℕ
  pub src_ip : Option Bytes
  pub dst_ip : Option Bytes
  pub src_port : ℕ
  pub dst_port : ℕ
  pub tsec : ℕ
  pub tmsec : ℕ
  pub proto_type : ℕ
  pub node_id : ℕ
  pub node_pw : Option Bytes
  pub payload : Option Bytes
  pub cid : Option Bytes
  pub vlan : ℕ

pub record HepMsg : Type 0 where
  pub version : ℕ
  pub protocol : ℕ
  pub src_ip : Option Bytes
  pub dst_ip : Option Bytes
  pub src_port : ℕ
  pub dst_port : ℕ
  pub tsec : ℕ
  pub tmsec : ℕ
  pub proto_type : ℕ
  pub node_id : ℕ
  pub node_pw : Option Bytes
  pub payload : Option Bytes
  pub cid : Option Bytes
  pub vlan : ℕ

-- `&HepMsg{}`
abbrev pub new_hep_msg : HepMsg
new_hep_msg = record {
  version = 0;
  protocol = 0;
  src_ip = none;
  dst_ip = none;
  src_port = 0;
  dst_port = 0;
  tsec = 0;
  tmsec = 0;
  proto_type = 0;
  node_id = 0;
  node_pw = none;
  payload = none;
  cid = none;
  vlan = 0;
}

-- The bytes of a slice that may be nil.
abbrev pub contents : Option Bytes → Bytes
contents none = []
contents (some b) = b

abbrev pub hep_ver : Bytes
hep_ver = 0x48 ∷ 0x45 ∷ 0x50 ∷ 0x33 ∷ []
