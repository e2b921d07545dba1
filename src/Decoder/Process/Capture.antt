-- ===== src/Decoder/Process/Capture.antt =====
-- decoder/decoder.go: the whole state of a decoder, the settings, and what `Process` calls of other
-- packages.
use heplify.Common.{
  ℕ, ◌+◌, ◌*◌, ◌%◌, ◌/◌, Bool, List, [], ◌∷◌, ◌++◌, Option, none, some, ◌==◌, if◌then◌else◌,
}
use heplify.Common.Bytes.{Bytes}
use heplify.Publish.Hep.{Packet}
use heplify.Protos.Rtcp.Packet.{RtcpPacket}
use heplify.Ip4defrag.{Ip4}
use heplify.Ip4defrag.Defragmenter.{Network, Flows}
use heplify.Ownlayers.Sip.Words.{to_upper}
use heplify.Decoder.Ng.{Value}
use heplify.Decoder.Correlator.Cache.{Cache}
use heplify.Decoder.Process.Payload.{Mode, Layers, Decoder}

-- What `Process` reads of an IPv6 layer.
pub record Ip6 : Type 0 where
  pub next_header : ℕ
  pub src_ip : Bytes
  pub dst_ip : Bytes

-- gopacket: decoding the bytes of a frame or of a tunnel, the layers it finds, and the decoding of a
-- datagram that was put together, within the frame of its last fragment.
pub record Gopacket : Type 1 where
  pub Frame : Type 0
  pub new_packet : Bytes → Frame
  pub gre : Frame → Option Bytes
  pub dot1q : Frame → Option ℕ
  pub ip4 : Frame → Option Ip4
  pub ip6 : Frame → Option Ip6
  pub transport : Frame → Layers
  pub decode_next : Ip4 → Frame → Frame

pub record Outside : Type 1 where
  pub cache : Cache
  pub ip_string : Bytes → Bytes
  pub rtcp_json : RtcpPacket → Option Bytes
  pub ng_json : Value → Option Bytes
  pub net : Network
  pub gp : Gopacket

-- The fields of `config.Cfg` that `Process` and `NewDecoder` read.
pub record Config : Type 0 where
  pub mode : Mode
  pub dedup : Bool
  pub filter : Bytes
  pub discard : Bytes
  pub discard_method : Bytes
  pub with_erspan : Bool
  pub hep_node_id : ℕ
  pub hep_node_pw : Bytes

-- `gopacket.CaptureInfo`: its timestamp.
pub record CaptureInfo : Type 0 where
  pub unix : ℕ
  pub nanosecond : ℕ

abbrev pub timestamp : CaptureInfo → ℕ
timestamp ci = ci.unix * 1000000000 + ci.nanosecond

-- `strings.Split(s, ",")`
unfoldable split_from : Bytes → Bytes → List Bytes
split_from item [] = item ∷ []
split_from item (b ∷ s) =
    let next = split_from [] s in
    let longer = split_from (item ++ b ∷ []) s in if b == 44 then item ∷ next else longer

unfoldable pub split_commas : Bytes → List Bytes
unfolding split_from
split_commas s = split_from [] s

module _ (o : Outside) where
  abbrev pub Inner : Type 0
  Inner = Decoder o.cache o.ip_string o.rtcp_json o.ng_json

  -- `Decoder`: `inner` is what the part behind the network layer uses.
  pub record Agent : Type 0 where
    pub inner : Inner
    pub node_id : ℕ
    pub node_pw : Bytes
    pub cseq : Option Bytes
    pub filter : List Bytes
    pub flows : Flows o.net
    pub frag_count : ℕ
    pub dup_count : ℕ
    pub ip4_count : ℕ
    pub ip6_count : ℕ

  -- `NewDecoder`, with its caches as an argument.
  unfoldable pub new_decoder : Config → o.cache.Store → o.cache.Store → o.cache.Store → Agent
  unfolding split_commas
  new_decoder cfg sip sdp rtcp = record {
    inner = record {
      stats = record {
        dns_count = 0;
        rtcp_count = 0;
        rtcp_fail_count = 0;
        tcp_count = 0;
        udp_count = 0;
        unknown_count = 0;
      };
      sip = sip;
      sdp = sdp;
      rtcp = rtcp;
    };
    node_id = cfg.hep_node_id % 4294967296;
    node_pw = cfg.hep_node_pw;
    cseq = none;
    filter = split_commas (to_upper cfg.discard_method);
    flows = [];
    frag_count = 0;
    dup_count = 0;
    ip4_count = 0;
    ip6_count = 0;
  }

  -- `pkt` before a layer is read
  abbrev pub new_packet : Agent → CaptureInfo → Packet
  new_packet a ci = record {
    version = 0;
    protocol = 0;
    src_ip = none;
    dst_ip = none;
    src_port = 0;
    dst_port = 0;
    tsec = ci.unix % 4294967296;
    tmsec = ci.nanosecond / 1000 % 4294967296;
    proto_type = 0;
    node_id = a.node_id;
    node_pw = some a.node_pw;
    payload = none;
    cid = none;
    vlan = 0;
  }
