-- ===== src/Sniffer/Setup.antt =====
-- sniffer/sniffer.go: `New`, `setFromConfig` and `NewWorker`. libpcap, af_packet and the network are
-- parameters.
pub mod Sound
mod Runs
use Prim.Native.String
use Prim.Native.String.{String}
use text.Mathlib.Text.{◌==◌}
use heplify.Common.{
  ℕ, zero, suc, ◌-◌, ◌%◌, ◌^◌, ltb, Bool, true, false, not, ◌&&◌, ◌||◌, Option, none, some,
  if◌then◌else◌, Outcome, ok, err, panic, stuck, ◌>>=◌,
}
use heplify.Decoder.Ng.Numbers.{ℤ, pos, negsuc}
use heplify.Publish.Output.{Transport, Net, HepOutputer, new_hep_outputer}
use heplify.Sniffer.Buffers.{IntWidth, SizeError, afpacket_compute_size}
use heplify.Sniffer.Run.{SnifferType, pcap, af_packet}

-- The fields of `config.InterfacesConfig` that the setup reads.
pub record InterfacesConfig : Type 0 where
  pub device : String
  pub capture_type : String
  pub read_file : String
  pub port_range : String
  pub with_vlan : Bool
  pub with_erspan : Bool
  pub snaplen : ℤ
  pub buffer_size_mb : ℤ

-- The tests `<= 0` with their default.
abbrev pub positive_or : ℕ → ℤ → ℕ
positive_or default (pos zero) = default
positive_or default (pos (suc n)) = suc n
positive_or default (negsuc n) = default

-- A conversion to int32 keeps the low 32 bits.
unfoldable pub int32 : ℕ → ℤ
int32 n = let low = n % 2 ^ 32 in if ltb low (2 ^ 31) then pos low else negsuc (2 ^ 32 - 1 - low)

abbrev pub type_of : InterfacesConfig → SnifferType
type_of cfg = if cfg.capture_type == "af_packet" then af_packet else pcap

infixl 5 ◌<>◌
abbrev ◌<>◌ : String → String → String
s <> t = String.◌++◌ s t

abbrev sip_filter : String → String
sip_filter ports = "(greater 256 and portrange " <> ports <> " or ip[6:2] & 0x1fff != 0)"

abbrev rtp_filter : String
rtp_filter = " or (ip and ip[6] & 0x2 = 0 and ip[6:2] & 0x1fff = 0 and udp and udp[8] & 0xc0 = 0x80"

abbrev rtcp_filter : String
rtcp_filter = rtp_filter <> " and udp[9] >= 0xc8 && udp[9] <= 0xcc)"

-- The switch on the mode.
unfoldable pub filter_of : String → String → String
filter_of mode ports =
    if mode == "SIP"
    then sip_filter ports
    else if mode == "SIPDNS"
    then sip_filter ports <> rtcp_filter <> " or (greater 32 and ip and dst port 53)"
    else if mode == "SIPLOG"
    then sip_filter ports <> rtcp_filter <> " or (greater 128 and (dst port 514 or port 2223))"
    else if mode == "SIPRTP"
    then sip_filter ports <> rtp_filter <> ")"
    else sip_filter ports <> rtcp_filter

unfoldable pub with_tunnels : InterfacesConfig → String → String
with_tunnels cfg filter =
    let erspan = if cfg.with_erspan then filter <> " or proto 47" else filter in
    if cfg.with_vlan then erspan <> " or (vlan and (" <> erspan <> "))" else erspan

-- What the code calls of libpcap and af_packet: an answer for each call of this run.
pub record Capturing : Type 1 where
  pub Handle : Type 0
  pub open_offline : String → Option Handle
  pub open_live : String → ℤ → Option Handle
  pub new_ring : String → ℕ → ℕ → ℕ → Option Handle
  pub set_bpf_filter : Handle → String → Bool
  pub set_ring_filter : Handle → String → ℕ → Bool
  pub page_size : ℕ
  pub int_width : IntWidth

pub data SetupError : Type 0 where
  any_not_supported no_device : SetupError
  open_file live_mode pcap_filter : SetupError
  compute_size ring_handle ring_filter : SetupError
  no_outputer : SetupError

-- `runtime.GOOS`
pub data Os : Type 0 where
  linux windows darwin : Os

abbrev refuses_any : Os → String → Bool
refuses_any linux device = false
refuses_any windows device = device == "any"
refuses_any darwin device = true

module _ (c : Capturing) where
  open c use {
    Handle, open_offline, open_live, new_ring, set_bpf_filter, set_ring_filter, page_size,
    int_width,
  }

  -- The data source; of a ring with the sizes of a frame and of a block and their number.
  pub data Source : Type 0 where
    offline live : Handle → Source
    ring : Handle → ℕ → ℕ → ℕ → Source

  abbrev open_pcap :
      Option Handle → SetupError → (Handle → Source) → String → Outcome SetupError Source
  open_pcap none e source filter = err e
  open_pcap (some h) e source filter =
      if set_bpf_filter h filter then ok (source h) else err pcap_filter

  abbrev open_ring :
      InterfacesConfig → String → Outcome SizeError (ℕ × (ℕ × ℕ)) → Outcome SetupError Source
  open_ring cfg filter (err e) = err compute_size
  open_ring cfg filter panic = panic
  open_ring cfg filter stuck = stuck
  open_ring cfg filter (ok (frame, (block, blocks))) =
      elim (new_ring cfg.device frame block blocks) [
        | none ↦ err ring_handle
        | some h ↦
            if set_ring_filter h filter (positive_or 65535 cfg.snaplen)
            then ok (ring h frame block blocks)
            else err ring_filter
      ]

  -- `setFromConfig`. The type is one of the two here, so that the default of its last switch is not taken.
  unfoldable pub set_from_config : String → InterfacesConfig → Outcome SetupError Source
  unfolding filter_of with_tunnels int32
  set_from_config mode cfg =
      let filter = with_tunnels cfg (filter_of mode cfg.port_range) in
      let snaplen = positive_or 65535 cfg.snaplen in
      elim (type_of cfg) [
        | pcap ↦
            if cfg.read_file == ""
            then open_pcap (open_live cfg.device (int32 snaplen)) live_mode live filter
            else open_pcap (open_offline cfg.read_file) open_file offline filter
        | af_packet ↦
            open_ring cfg filter (
              afpacket_compute_size int_width (positive_or 32 cfg.buffer_size_mb) snaplen page_size)
      ]

  module _ (net : Net) where
    open net use {World}

    pub data Outputer : Type 0 where
      hep_outputer : HepOutputer net → Outputer
      file_outputer : Outputer

    abbrev outputer_of : Option (HepOutputer net) × World → Option Outputer × World
    outputer_of (none, w) = (none, w)
    outputer_of (some h, w) = (some (hep_outputer h), w)

    -- `NewWorker`
    unfoldable pub new_worker : Transport → String → World → Option Outputer × World
    new_worker t server w =
        let hep = outputer_of (new_hep_outputer net t w) in
        if server == "" then (some file_outputer, w) else hep

    abbrev ready : Source → Option Outputer × World → Outcome SetupError (Source × Outputer) × World
    ready s (none, w) = (err no_outputer, w)
    ready s (some out, w) = (ok (s, out), w)

    abbrev and_worker :
        Transport
        → String
        → World
        → Outcome SetupError Source
        → Outcome SetupError (Source × Outputer) × World
    and_worker t server w (ok s) = ready s (new_worker t server w)
    and_worker t server w (err e) = (err e, w)
    and_worker t server w panic = (panic, w)
    and_worker t server w stuck = (stuck, w)

    -- `New`, on its operating system.
    unfoldable pub new :
        Os
        → Transport
        → String
        → String
        → InterfacesConfig
        → World
        → Outcome SetupError (Source × Outputer) × World
    unfolding set_from_config new_worker
    new os t server mode cfg w =
        let set = and_worker t server w (set_from_config mode cfg) in
        if cfg.read_file == "" && refuses_any os cfg.device
        then (err any_not_supported, w)
        else if cfg.device == "" && cfg.read_file == ""
        then (err no_device, w)
        else set
