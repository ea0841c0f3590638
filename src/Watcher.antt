-- ===== src/Watcher.antt =====
-- relayer/watcher/config.go: the contract's configuration is polled until its version changes.
pub mod Detects
use tx_xrpl_token_migrator.Base.{
  ℕ, ◌==◌, not, Bool, true, false, Option, none, some, List, [], ◌∷◌, if◌then◌else◌,
}
use tx_xrpl_token_migrator.Base.Str.{codes}
use tx_xrpl_token_migrator.Base.Go.{Go, ok, err, panics, Error, Cause, wrap}
use tx_xrpl_token_migrator.Tx.Contract.Types.{Config}

-- `ErrConfigChanged`
abbrev pub err_config_changed : Error
err_config_changed = record {
  message = codes "contract configuration has changed";
  cause = Cause.config_changed;
}

-- `ConfigWatcher`
pub record ConfigWatcher : Type 0 where
  pub current_version : ℕ

-- `Initialize`, with the answer to its query.
unfoldable pub initialize : Go Config → ConfigWatcher → ConfigWatcher × Go (Unit {0})
initialize answer w = elim answer [
  | ok config ↦ (record w { current_version = config.version }, ok tt)
  | err e ↦ (w, err (wrap (codes "failed to query initial contract config version") e))
  | panics ↦ (w, panics)
]

-- What the `select` takes: the end of the context, or a tick, with the answer to its query.
pub data Tick : Type 0 where
  is_canceled : Tick
  is_expired : Tick
  polled : Go Config → Tick

-- `Watch`: none as long as it has not returned.
unfoldable pub watch : ConfigWatcher → List Tick → Option (Go (Unit {0}))
watch w [] = none
watch w (Tick.is_canceled ∷ ticks) =
    some (err (record { message = codes "context canceled"; cause = Cause.canceled }))
watch w (Tick.is_expired ∷ ticks) =
    some (
      err (record { message = codes "context deadline exceeded"; cause = Cause.deadline_exceeded }))
watch w (Tick.polled answer ∷ ticks) =
    let rest = watch w ticks in
    elim answer [
      | err _ ↦ rest
      | panics ↦ some panics
      | ok config ↦
          if not (config.version == w.current_version) then some (err err_config_changed) else rest
    ]
