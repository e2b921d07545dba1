-- ===== src/Decoder/Correlator/Cache.antt =====
-- The caches of decoder/decoder.go, which are github.com/coocoood/freecache's: what the decoder calls.
use heplify.Common.{ℕ, ◌<◌, ◌≡◌, Option, none, some, ltb, if◌then◌else◌}
use heplify.Common.Bytes.{Bytes}

-- `Get`, `none` an error, and `Set` with an expiry in seconds, `none` an error.
pub record Cache : Type 1 where
  pub Store : Type 0
  pub get : Bytes → Store → Option Bytes
  pub set : Bytes → Bytes → ℕ → Store → Option Store

-- A value that was set is found under its key at once, before time passes.
abbrev pub KeepsSet : Cache → Type 0
KeepsSet cache =
    (k v : Bytes) (seconds : ℕ) (s s' : cache.Store)
    → cache.set k v seconds s ≡ some s'
    → cache.get k s' ≡ some v

-- `later` is what becomes of a cache when its clock goes on by so many seconds. An entry is found until its
-- expiry, and no longer.
abbrev pub Expires : (cache : Cache) → (ℕ → cache.Store → cache.Store) → Type 0
Expires cache later =
    (k v : Bytes) (seconds t : ℕ) (s s' : cache.Store)
    → 0 < seconds
    → cache.set k v seconds s ≡ some s'
    → cache.get k (later t s') ≡ (if ltb t seconds then some v else none)
