-- ===== src/Sniffer/Live.antt =====
-- sniffer: an interface that is captured and dumped, from `Run` through the channel to `dumpPcap`.
use heplify.Common.{ℕ, ◌≡◌, Bool, true, false}
use heplify.Sniffer.Run.{SnifferType, Config, State}

-- The configuration of an interface that is dumped.
abbrev pub from_interface : SnifferType → Bool → ℕ → Config
from_interface type speed loop = record {
  sniffer_type = type;
  read_file = false;
  write_file = true;
  read_speed = speed;
  loop = loop;
}

-- All that the worker got has been dumped.
abbrev AllDumped : State → Type 0
AllDumped s = s.dumped ≡ s.delivered

module _ (type : SnifferType) (speed : Bool) (loop : ℕ) where
  abbrev cfg : Config
  cfg = from_interface type speed loop
