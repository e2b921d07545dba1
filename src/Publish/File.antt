-- ===== src/Publish/File.antt =====
-- publish/file.go: the output to the log, with the recovery of publish/publisher.go around it.
use heplify.Common.{ok, err, panic, stuck}
use heplify.Common.Bytes.{Bytes}
use heplify.Publish.Hep.{HepMsg}
use heplify.Publish.Hep.Decode.{HepError, decode_hep}

-- What a message comes to in the log. A panic of `Output` is recovered and logged.
pub data Logged : Type 0 where
  info : HepMsg → Logged
  warning : HepError → Logged
  recovered : Logged
  endless : Logged

-- `FileOutputer.Output`, called by `Publisher.output`.
unfoldable pub file_output : Bytes → Bytes → Logged
file_output spare msg = elim (decode_hep spare msg) [
  | ok h ↦ info h
  | err e ↦ warning e
  | panic ↦ recovered
  | stuck ↦ endless
]
