-- ===== src/Service.antt =====
-- relayer/service/service.go: the relayer is restarted when the configuration changes, and finders
-- are made for the tokens of the configuration.
pub mod Tokens
pub mod Restart
pub mod Clients
pub mod New
use tx_xrpl_token_migrator.Base.{
  ℕ, Bool, true, false, Option, none, some, List, [], ◌∷◌, if◌then◌else◌,
}
use tx_xrpl_token_migrator.Base.Int.{ℤ, pos, ◌*ℤ◌, i64}
use tx_xrpl_token_migrator.Base.Str.{Str, codes}
use tx_xrpl_token_migrator.Base.Go.{Go, ok, err, panics, ◌>>=◌, Error, Cause, new_error, wrap}
use tx_xrpl_token_migrator.Ripple.{Ripple}
use tx_xrpl_token_migrator.Xrpl.Scanner.{is_canceled}
use tx_xrpl_token_migrator.Finder.Build.{Config}
use tx_xrpl_token_migrator.Tx.Contract.Types.{XrplToken}
use tx_xrpl_token_migrator.Audit.Types.{XrplTokenConfig}

-- `errors.Is(err, watcher.ErrConfigChanged)`
abbrev pub is_config_changed : Error → Bool
is_config_changed e = elim e.cause [ Cause.config_changed ↦ true | _ ↦ false ]

-- One round of the loop: the error of the context, and the results of `NewServices` and of
-- `parallel.Run`.
pub record Iteration : Type 0 where
  pub ctx_err : Option Error
  pub services : Go (Unit {0})
  pub run : Go (Unit {0})

-- `RunExecutorWithAutoRestart`: none as long as it has not returned.
unfoldable pub run_executor_with_auto_restart : List Iteration → Option (Go (Unit {0}))
run_executor_with_auto_restart [] = none
run_executor_with_auto_restart (i ∷ iterations) =
    let rest = run_executor_with_auto_restart iterations in
    elim i.ctx_err [
      | some e ↦ some (err e)
      | none ↦ elim i.services [
        | err e ↦ some (err (wrap (codes "failed to create services") e))
        | panics ↦ some panics
        | ok _ ↦ elim i.run [
          | ok _ ↦ some (ok tt)
          | panics ↦ some panics
          | err e ↦
              if is_config_changed e
              then rest
              else if is_canceled e
              then some (ok tt)
              else some (err e)
        ]
      ]
    ]

-- What all finders have in common.
pub record Settings : Type 0 where
  pub xrpl_history_scan_start_ledger : ℤ
  pub xrpl_recent_scan_indexes_back : ℤ
  pub xrpl_memo_suffix : Str
  pub tx_denom : Str
  pub tx_decimals : ℕ

module _ (R : Ripple) (s : Settings) where
  -- The finder and the audit configuration of one token; the activation date is in seconds.
  unfoldable pub token_configs : XrplToken → Go (Config × XrplTokenConfig)
  token_configs token = elim (R.new_account_from_address token.issuer) [
    | none ↦ err (new_error (codes "failed to convert XRPLIssuer string to type"))
    | some xrpl_issuer ↦ elim (R.new_currency token.currency) [
      | none ↦ err (new_error (codes "failed to convert XRPLCurrency string to type"))
      | some xrpl_currency ↦ ok (
        record {
          xrpl_issuer = xrpl_issuer;
          xrpl_currency = xrpl_currency;
          activation_date = i64 (pos token.activation_date) *ℤ pos 1_000_000_000;
          multiplier = token.multiplier;
          xrpl_history_scan_start_ledger = s.xrpl_history_scan_start_ledger;
          xrpl_recent_scan_indexes_back = s.xrpl_recent_scan_indexes_back;
          xrpl_memo_suffix = s.xrpl_memo_suffix;
          tx_denom = s.tx_denom;
          tx_decimals = s.tx_decimals;
        },
        record {
          xrpl_issuer = xrpl_issuer;
          xrpl_currency = xrpl_currency;
          multiplier = token.multiplier;
        },
      )
    ]
  ]

  -- `createFindersAndAuditConfig`; a finder is its configuration.
  unfoldable pub create_finders_and_audit_config :
      List XrplToken → Go (List Config × List XrplTokenConfig)
  unfolding token_configs
  create_finders_and_audit_config [] = ok ([], [])
  create_finders_and_audit_config (token ∷ tokens) = token_configs token >>= λ (f, a).
      create_finders_and_audit_config tokens >>= λ (finders, audits). ok (f ∷ finders, a ∷ audits)
