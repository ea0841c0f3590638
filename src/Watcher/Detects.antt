-- ===== src/Watcher/Detects.antt =====
-- What the watcher reports.
use mathlib.Core.Option.{none-ne-some}
use tx_xrpl_token_migrator.Base.{
  ◌==◌, ◌≡◌, refl, ap, ◌∙◌, inl, inr, ◌↔◌, true, false, some, List, [], ◌∷◌, ◌++◌, All, Bool-cases,
}
use tx_xrpl_token_migrator.Base.Go.{ok, err, panics}
use tx_xrpl_token_migrator.Tx.Contract.Types.{Config}
use tx_xrpl_token_migrator.Watcher.{err_config_changed, ConfigWatcher, Tick, watch}

-- A poll that failed, or that found the current version.
abbrev pub IsQuiet : ConfigWatcher → Tick → Type 0
IsQuiet w Tick.is_canceled = ⊥
IsQuiet w Tick.is_expired = ⊥
IsQuiet w (Tick.polled panics) = ⊥
IsQuiet w (Tick.polled (err e)) = Unit
IsQuiet w (Tick.polled (ok config)) = (config.version == w.current_version) ≡ true

-- After quiet polls, one found another version.
abbrev pub IsChanged : ConfigWatcher → List Tick → Type 0
IsChanged w ticks =
    (quiet : List Tick) × (config : Config) × (later : List Tick) × (ticks
      ≡ quiet ++ Tick.polled (ok config) ∷ later)
    × All (IsQuiet w) quiet
    × ((config.version == w.current_version) ≡ false)

earlier :
    (w : ConfigWatcher) (t : Tick) (ticks : List Tick)
    → IsQuiet w t
    → IsChanged w ticks
    → IsChanged w (t ∷ ticks)
earlier w t ticks q (quiet, config, later, e, all, new) =
    (t ∷ quiet, config, later, ap (λ r. t ∷ r) e, (q, all), new)

sound :
    (w : ConfigWatcher) (ticks : List Tick)
    → watch w ticks ≡ some (err err_config_changed)
    → IsChanged w ticks
unfolding watch
sound w [] h = absurd (none-ne-some _ h)
sound w (Tick.is_canceled ∷ ticks) h = cc
sound w (Tick.is_expired ∷ ticks) h = cc
sound w (Tick.polled (err e) ∷ ticks) h = earlier w (Tick.polled (err e)) ticks tt (sound w ticks h)
sound w (Tick.polled panics ∷ ticks) h = cc
sound w (Tick.polled (ok config) ∷ ticks) h =
    elim (Bool-cases (config.version == w.current_version)) [
      | inl y ↦ earlier w (Tick.polled (ok config)) ticks y (sound w ticks (rw y at h))
      | inr n ↦ ([], config, ticks, refl, tt, n)
    ]

detects :
    (w : ConfigWatcher) (quiet : List Tick) (config : Config) (later : List Tick)
    → All (IsQuiet w) quiet
    → (config.version == w.current_version) ≡ false
    → watch w (quiet ++ Tick.polled (ok config) ∷ later) ≡ some (err err_config_changed)
unfolding watch
detects w [] config later all new = rw new refl
detects w (Tick.polled (err e) ∷ quiet) config later all new =
    detects w quiet config later all.1 new
detects w (Tick.polled panics ∷ quiet) config later all new = absurd all.0
detects w (Tick.is_canceled ∷ quiet) config later all new = absurd all.0
detects w (Tick.is_expired ∷ quiet) config later all new = absurd all.0
detects w (Tick.polled (ok c) ∷ quiet) config later all new =
    rw all.0 (detects w quiet config later all.1 new)

-- The watcher reports a change of the configuration exactly if a poll found a version that is not
-- the current one, and the polls before, if any, all failed or found the current version, with the
-- context not done.
pub watch_detects :
    (w : ConfigWatcher) (ticks : List Tick)
    → (watch w ticks ≡ some (err err_config_changed)) ↔ IsChanged w ticks
watch_detects w ticks = (
  sound w ticks,
  λ (quiet, config, later, e, all, new). ap (watch w) e ∙ detects w quiet config later all new,
)
