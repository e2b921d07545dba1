-- ===== src/Sniffer/Setup/Sound.antt =====
-- sniffer/sniffer.go: what a sniffer that `New` returns is ready for.
use Prim.Native.String.{String}
use text.Mathlib.Text.{◌==◌}
use heplify.Common.{
  ℕ, ◌*◌, ◌≡◌, true, false, ◌&&◌, ◌||◌, Option, none, some, Outcome, ok, err, panic, stuck,
}
use heplify.Publish.Output.{Net, new_writer}
use heplify.Sniffer.Buffers.{buffer_too_small, Fits}
use heplify.Sniffer.Run.{pcap, af_packet}
use heplify.Sniffer.Setup.{
  InterfacesConfig, positive_or, type_of, Capturing, SetupError, compute_size, Os, refuses_any,
  Source, offline, live, ring, Outputer, hep_outputer, file_outputer,
}

module _ (c : Capturing) where
  -- The bytes of the buffer, and the snapshot length, of the configuration or their defaults.
  abbrev pub buffer_size : InterfacesConfig → ℕ
  buffer_size cfg = positive_or 32 cfg.buffer_size_mb * 1024 * 1024

  abbrev pub snapshot : InterfacesConfig → ℕ
  snapshot cfg = positive_or 65535 cfg.snaplen

  -- What is opened: the file, if one is given, or the device, by libpcap; for af_packet always a ring on the
  -- device, whose sizes fit. The error of the sizes is given only where one block exceeds the buffer.
  abbrev pub SourceFits : InterfacesConfig → Outcome SetupError (Source c) → Type 0
  SourceFits cfg (ok (offline h)) = (type_of cfg ≡ pcap) × ((cfg.read_file == "") ≡ false)
  SourceFits cfg (ok (live h)) = (type_of cfg ≡ pcap) × ((cfg.read_file == "") ≡ true)
  SourceFits cfg (ok (ring h frame block blocks)) =
      (type_of cfg ≡ af_packet)
      × Fits (buffer_size cfg) (snapshot cfg) c.page_size (ok (frame, (block, blocks)))
  SourceFits cfg (err compute_size) =
      (type_of cfg ≡ af_packet)
      × Fits (buffer_size cfg) (snapshot cfg) c.page_size (err buffer_too_small)
  SourceFits cfg _ = Unit {0}

  module _ (net : Net) where
    -- A HEP output is connected, with an empty buffer and no errors counted.
    abbrev pub IsFresh : Outputer c net → Type 0
    IsFresh file_outputer = Unit {0}
    IsFresh (hep_outputer h) =
        (k : net.Conn) × (h ≡ record { conn = some k; writer = new_writer net k; err_cnt = 0 })

    -- What holds of an answer of `New`.
    abbrev pub Ready :
        Os → InterfacesConfig → Outcome SetupError (Source c × Outputer c net) → Type 0
    Ready os cfg (ok (s, out)) =
        SourceFits cfg (ok s)
        × IsFresh out
        × ((cfg.read_file == "" && (refuses_any os cfg.device || cfg.device == "")) ≡ false)
    Ready os cfg (err e) = SourceFits cfg (err e)
    Ready os cfg panic = Unit {0}
    Ready os cfg stuck = Unit {0}

    abbrev FreshOne : Option (Outputer c net) × net.World → Type 0
    FreshOne (none, w) = Unit {0}
    FreshOne (some out, w) = IsFresh out
