-- ===== src/Runtime.antt =====
-- internal/app/runtime.go: the settings that the daemon runs with, and how it learns of new ones.
-- A channel is its number; the channels that were made and closed are a state of their own, and to
-- close one a second time is a panic, which ends the run. Copies of slices and the lock, under which
-- every operation runs, are not modelled.
pub mod Updates
use cuearr.Prelude.{
  ℕ, suc, Text, lit, Bool, true, false, not, ◌&&◌, Option, none, some, List, [], ◌∷◌, if◌then◌else◌,
  is_nil, ltb, ◌==◌,
}
use cuearr.Errors.{Error, Result, ok, err, wrapped}
use cuearr.Settings.{Settings}
use cuearr.Settings.Stored.{SettingsDb, get_settings, put_settings}

unfoldable pub runtime_settings_empty : Settings → Bool
runtime_settings_empty s =
    is_nil s.watch_dirs && is_nil s.out_dir && not s.in_place && is_nil s.engine

module _ (marshal : Settings → Text) (unmarshal : Text → Result Settings) where
  abbrev pub seeded : Settings → Option Error × SettingsDb → Result (Settings × Bool) × SettingsDb
  seeded defaults (none, db) = (ok (defaults, true), db)
  seeded defaults (some e, db) = (err (wrapped (lit "seed runtime settings") e), db)

  abbrev pub load_from :
      Settings → Result Settings → SettingsDb → Result (Settings × Bool) × SettingsDb
  load_from defaults (err e) db = (err (wrapped (lit "load runtime settings") e), db)
  load_from defaults (ok s) db =
      let seed = record defaults { auth = s.auth } in
      let result = seeded seed (put_settings marshal unmarshal seed db) in
      if not (runtime_settings_empty s) then (ok (s, false), db) else result

  unfoldable pub load_runtime_settings :
      Settings → SettingsDb → Result (Settings × Bool) × SettingsDb
  load_runtime_settings defaults db =
      let (found, db') = get_settings marshal unmarshal db in load_from defaults found db'

-- the channels: how many were made, and the numbers of those that were closed
pub record Channels : Type 0 where
  pub made : ℕ
  pub closed : List ℕ

abbrev pub no_channels : Channels
no_channels = record { made = 0; closed = [] }

abbrev pub is_among : ℕ → List ℕ → Bool
is_among n [] = false
is_among n (m ∷ ms) = let later = is_among n ms in if n == m then true else later

-- whether a receive from the channel goes on at once
unfoldable pub is_closed : ℕ → Channels → Bool
is_closed channel ch = is_among channel ch.closed

-- make(chan struct{})
unfoldable pub make_channel : Channels → ℕ × Channels
make_channel ch = (ch.made, record ch { made = suc ch.made })

-- close; none is the panic on a channel that is closed already
unfoldable pub close_channel : ℕ → Channels → Option Channels
unfolding is_closed
close_channel channel ch =
    if is_closed channel ch then none else some (record ch { closed = channel ∷ ch.closed })

-- with a splitter of any kind
pub record RuntimeConfig (Splitter : Type 0) : Type 0 where
  pub settings : Settings
  pub splitter : Splitter
  pub changed : ℕ

module _ {Splitter : Type 0} where
  unfoldable pub new_runtime_config :
      Settings → Splitter → Channels → RuntimeConfig Splitter × Channels
  unfolding make_channel
  new_runtime_config s splitter ch =
      let (channel, ch') = make_channel ch in
      (record { settings = s; splitter = splitter; changed = channel }, ch')

  unfoldable pub snapshot : RuntimeConfig Splitter → Settings × Splitter
  snapshot c = (c.settings, c.splitter)

  unfoldable pub snapshot_with_changes : RuntimeConfig Splitter → Settings × Splitter × ℕ
  snapshot_with_changes c = (c.settings, c.splitter, c.changed)

  -- a new channel in place of the one that was closed
  abbrev pub renewed :
      RuntimeConfig Splitter → Option Channels → Option (RuntimeConfig Splitter × Channels)
  renewed c none = none
  renewed c (some ch) =
      let (channel, ch') = make_channel ch in some (record c { changed = channel }, ch')

  -- the new settings and splitter, close(c.changed), and a new channel
  unfoldable pub apply :
      Settings
      → Splitter
      → RuntimeConfig Splitter × Channels
      → Option (RuntimeConfig Splitter × Channels)
  unfolding make_channel close_channel
  apply s splitter (c, ch) =
      let c' = record c { settings = s; splitter = splitter } in
      renewed c' (close_channel c'.changed ch)
