-- ===== src/Cli/Settings/Gives.antt =====
-- What a flag gives to a field of the configuration.
use tx_xrpl_token_migrator.Base.{◌≡◌, refl, ◌↔◌, Option, none, some, [], ◌∷◌, if◌then◌else◌, arith}
use tx_xrpl_token_migrator.Base.Int.{ℤ, pos, eqb_ℤ}
use tx_xrpl_token_migrator.Base.Str.{Str}
use tx_xrpl_token_migrator.Base.Go.{ok}
use tx_xrpl_token_migrator.Xrpl.Model.{Time}
use tx_xrpl_token_migrator.Cli.Flags.{Setting, FlagName, FlagValue, Flags, get_string, get_int64}
use tx_xrpl_token_migrator.Cli.Settings.{
  Outside, set_string_if_not_empty, set_string_int64_if_not_zero, set_date_if_not_empty,
}
use tx_xrpl_token_migrator.Cli.Settings.Fields.{ValueOf, read}

-- A text that is not empty replaces the old one; a flag that is not declared, or empty, does not.
abbrev pub GivesText : Option FlagValue → Str → Str → Type 0
GivesText none old new = old ≡ new
GivesText (some (FlagValue.text [])) old new = old ≡ new
GivesText (some (FlagValue.text (c ∷ s))) old new = c ∷ s ≡ new
GivesText (some (FlagValue.int64 v)) old new = ⊥
GivesText (some (FlagValue.int v)) old new = ⊥
GivesText (some (FlagValue.texts v)) old new = ⊥

-- Likewise a number that is not zero.
abbrev pub GivesNumber : Option FlagValue → ℤ → ℤ → Type 0
GivesNumber none old new = old ≡ new
GivesNumber (some (FlagValue.int64 v)) old new = (if eqb_ℤ v (pos 0) then old else v) ≡ new
GivesNumber (some (FlagValue.text v)) old new = ⊥
GivesNumber (some (FlagValue.int v)) old new = ⊥
GivesNumber (some (FlagValue.texts v)) old new = ⊥

-- Likewise the date of a text that is not empty, and is one.
abbrev pub GivesDate : Outside → Option FlagValue → Time → Time → Type 0
GivesDate O none old new = old ≡ new
GivesDate O (some (FlagValue.text [])) old new = old ≡ new
GivesDate O (some (FlagValue.text (c ∷ s))) old new = O.parse_date (c ∷ s) ≡ some new
GivesDate O (some (FlagValue.int64 v)) old new = ⊥
GivesDate O (some (FlagValue.int v)) old new = ⊥
GivesDate O (some (FlagValue.texts v)) old new = ⊥

abbrev pub Gives : (O : Outside) (s : Setting) → Option FlagValue → ValueOf s → ValueOf s → Type 0
Gives O Setting.xrpl_rpc_url flag old new = GivesText flag old new
Gives O Setting.xrpl_history_scan_start_ledger flag old new = GivesNumber flag old new
Gives O Setting.xrpl_recent_scan_indexes_back flag old new = GivesNumber flag old new
Gives O Setting.xrpl_recent_scan_skip_last_indexes flag old new = GivesNumber flag old new
Gives O Setting.xrpl_memo_suffix flag old new = GivesText flag old new
Gives O Setting.tx_rpc_url flag old new = GivesText flag old new
Gives O Setting.tx_grpc_url flag old new = GivesText flag old new
Gives O Setting.tx_sender_address flag old new = GivesText flag old new
Gives O Setting.tx_contract_address flag old new = GivesText flag old new
Gives O Setting.prometheus_url flag old new = GivesText flag old new
Gives O Setting.prometheus_instance_name flag old new = GivesText flag old new
Gives O Setting.prometheus_username flag old new = GivesText flag old new
Gives O Setting.prometheus_password flag old new = GivesText flag old new
Gives O Setting.audit_start_date flag old new = GivesDate O flag old new

module _ (O : Outside) (flags : Flags) (name : FlagName) where
  text_iff :
      (flag : Option FlagValue) (old new : Str)
      → flags name ≡ flag
      → (set_string_if_not_empty O flags name old ≡ ok new) ↔ GivesText flag old new
  unfolding set_string_if_not_empty get_string
  text_iff none old new e = rw (e, set_string_if_not_empty) (λ h. ground arith, λ h. ground arith)
  text_iff (some (FlagValue.text [])) old new e =
      rw (e, set_string_if_not_empty, get_string) (λ h. ground arith, λ h. ground arith)
  text_iff (some (FlagValue.text (c ∷ s))) old new e =
      rw (e, set_string_if_not_empty, get_string) (λ h. ground arith, λ h. ground arith)
  text_iff (some (FlagValue.int64 v)) old new e =
      rw (e, set_string_if_not_empty, get_string) (λ h. cc, λ h. absurd h)
  text_iff (some (FlagValue.int v)) old new e =
      rw (e, set_string_if_not_empty, get_string) (λ h. cc, λ h. absurd h)
  text_iff (some (FlagValue.texts v)) old new e =
      rw (e, set_string_if_not_empty, get_string) (λ h. cc, λ h. absurd h)

  number_iff :
      (flag : Option FlagValue) (old new : ℤ)
      → flags name ≡ flag
      → (set_string_int64_if_not_zero O flags name old ≡ ok new) ↔ GivesNumber flag old new
  unfolding set_string_int64_if_not_zero get_int64
  number_iff none old new e =
      rw (e, set_string_int64_if_not_zero) (λ h. ground arith, λ h. ground arith)
  number_iff (some (FlagValue.int64 v)) old new e =
      rw (e, set_string_int64_if_not_zero, get_int64) (λ h. ground arith, λ h. ground arith)
  number_iff (some (FlagValue.text v)) old new e =
      rw (e, set_string_int64_if_not_zero, get_int64) (λ h. cc, λ h. absurd h)
  number_iff (some (FlagValue.int v)) old new e =
      rw (e, set_string_int64_if_not_zero, get_int64) (λ h. cc, λ h. absurd h)
  number_iff (some (FlagValue.texts v)) old new e =
      rw (e, set_string_int64_if_not_zero, get_int64) (λ h. cc, λ h. absurd h)

  date_iff :
      (flag : Option FlagValue) (old new : Time)
      → flags name ≡ flag
      → (set_date_if_not_empty O flags name old ≡ ok new) ↔ GivesDate O flag old new
  unfolding set_date_if_not_empty set_string_if_not_empty get_string
  date_iff none old new e =
      rw (e, set_date_if_not_empty, set_string_if_not_empty) (λ h. ground arith, λ h. ground arith)
  date_iff (some (FlagValue.text [])) old new e =
      rw (e, set_date_if_not_empty, set_string_if_not_empty, get_string)
        (λ h. ground arith, λ h. ground arith)
  date_iff (some (FlagValue.text (c ∷ s))) old new e =
      rw (e, set_date_if_not_empty, set_string_if_not_empty, get_string)
        (λ h. ground arith, λ h. ground arith)
  date_iff (some (FlagValue.int64 v)) old new e =
      rw (e, set_date_if_not_empty, set_string_if_not_empty, get_string) (λ h. cc, λ h. absurd h)
  date_iff (some (FlagValue.int v)) old new e =
      rw (e, set_date_if_not_empty, set_string_if_not_empty, get_string) (λ h. cc, λ h. absurd h)
  date_iff (some (FlagValue.texts v)) old new e =
      rw (e, set_date_if_not_empty, set_string_if_not_empty, get_string) (λ h. cc, λ h. absurd h)

module _ (O : Outside) (flags : Flags) where
  pub read_iff :
      (s : Setting) (old new : ValueOf s)
      → (read O flags s old ≡ ok new) ↔ Gives O s (flags (FlagName.setting s)) old new
  read_iff Setting.xrpl_rpc_url old new =
      text_iff O flags (FlagName.setting Setting.xrpl_rpc_url) _ old new refl
  read_iff Setting.xrpl_history_scan_start_ledger old new =
      number_iff O flags (FlagName.setting Setting.xrpl_history_scan_start_ledger) _ old new refl
  read_iff Setting.xrpl_recent_scan_indexes_back old new =
      number_iff O flags (FlagName.setting Setting.xrpl_recent_scan_indexes_back) _ old new refl
  read_iff Setting.xrpl_recent_scan_skip_last_indexes old new =
      number_iff O flags (FlagName.setting Setting.xrpl_recent_scan_skip_last_indexes) _ old new
        refl
  read_iff Setting.xrpl_memo_suffix old new =
      text_iff O flags (FlagName.setting Setting.xrpl_memo_suffix) _ old new refl
  read_iff Setting.tx_rpc_url old new =
      text_iff O flags (FlagName.setting Setting.tx_rpc_url) _ old new refl
  read_iff Setting.tx_grpc_url old new =
      text_iff O flags (FlagName.setting Setting.tx_grpc_url) _ old new refl
  read_iff Setting.tx_sender_address old new =
      text_iff O flags (FlagName.setting Setting.tx_sender_address) _ old new refl
  read_iff Setting.tx_contract_address old new =
      text_iff O flags (FlagName.setting Setting.tx_contract_address) _ old new refl
  read_iff Setting.prometheus_url old new =
      text_iff O flags (FlagName.setting Setting.prometheus_url) _ old new refl
  read_iff Setting.prometheus_instance_name old new =
      text_iff O flags (FlagName.setting Setting.prometheus_instance_name) _ old new refl
  read_iff Setting.prometheus_username old new =
      text_iff O flags (FlagName.setting Setting.prometheus_username) _ old new refl
  read_iff Setting.prometheus_password old new =
      text_iff O flags (FlagName.setting Setting.prometheus_password) _ old new refl
  read_iff Setting.audit_start_date old new =
      date_iff O flags (FlagName.setting Setting.audit_start_date) _ old new refl
