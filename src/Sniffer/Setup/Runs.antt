-- ===== src/Sniffer/Setup/Runs.antt =====
-- sniffer/sniffer.go: `New` at concrete inputs.
use Prim.Native.String.{String}
use heplify.Common.{ℕ, suc, ◌≡◌, refl, true, false, some, length, ok, err}
use heplify.Publish.Output.{udp, Net, new_writer, new_hep_outputer, connect_server}
use heplify.Sniffer.Buffers.{int_64, quotient, frame_size, afpacket_compute_size}
use heplify.Decoder.Ng.Numbers.{pos, negsuc}
use heplify.Sniffer.Setup.{
  InterfacesConfig, filter_of, with_tunnels, Capturing, any_not_supported, linux, darwin, ring,
  set_from_config, hep_outputer, new_worker, new,
}

-- Everything that is asked for succeeds.
abbrev willing : Capturing
willing = record {
  Handle = ℕ;
  open_offline = λ f. some 0;
  open_live = λ d n. some 1;
  new_ring = λ d f b n. some 2;
  set_bpf_filter = λ h f. true;
  set_ring_filter = λ h f n. true;
  page_size = 4096;
  int_width = int_64;
}

abbrev online : Net
online = record {
  World = ℕ;
  Conn = ℕ;
  dial = λ t w. (suc w, some w);
  write = λ c p w. (w, (length p, true));
  close = λ c w. w;
}

-- The command line's defaults, but for the capture type and a snapshot length of -1.
abbrev flags : String → InterfacesConfig
flags device = record {
  device = device;
  capture_type = "af_packet";
  read_file = "";
  port_range = "5060-5090";
  with_vlan = false;
  with_erspan = false;
  snaplen = negsuc 0;
  buffer_size_mb = pos 32;
}

new_ring : new willing online linux udp "127.0.0.1:9060" "SIP" (flags "eth0") 7 ≡ (
  ok (
    ring 2 65536 8388608 4,
    hep_outputer (record { conn = some 7; writer = new_writer online 7; err_cnt = 0 }),
  ),
  8,
)
unfolding new set_from_config new_worker new_hep_outputer connect_server afpacket_compute_size
    frame_size quotient
new_ring = refl

-- A file is not read with af_packet, and the device may have no name.
new_file_ignored :
    (new willing online linux udp "127.0.0.1:9060" "SIP"
      (record (flags "") { read_file = "calls.pcap" })
      7).0
    ≡ ok (
      ring 2 65536 8388608 4,
      hep_outputer (record { conn = some 7; writer = new_writer online 7; err_cnt = 0 }),
    )
unfolding new set_from_config new_worker new_hep_outputer connect_server afpacket_compute_size
    frame_size quotient
new_file_ignored = refl

-- On macOS every device is refused, not only "any".
new_darwin :
    new willing online darwin udp "127.0.0.1:9060" "SIP" (flags "en0") 7
    ≡ (err any_not_supported, 7)
unfolding new
new_darwin = refl

-- The filter of the mode SIP with VLANs.
vlan_filter :
    with_tunnels (record (flags "eth0") { with_vlan = true }) (filter_of "SIP" "5060")
    ≡ "(greater 256 and portrange 5060 or ip[6:2] & 0x1fff != 0) or (vlan and ((greater 256 and portrange 5060 or ip[6:2] & 0x1fff != 0)))"
unfolding with_tunnels filter_of
vlan_filter = refl
