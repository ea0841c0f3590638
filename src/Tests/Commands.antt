-- ===== src/Tests/Commands.antt =====
-- Commands of the command line that generate a transaction.
use tx_xrpl_token_migrator.Base.{◌≡◌, refl, none, some, [], ◌∷◌}
use tx_xrpl_token_migrator.Base.Int.{ℤ, pos}
use tx_xrpl_token_migrator.Base.Str.{codes, str_eq}
use tx_xrpl_token_migrator.Base.Go.{ok}
use tx_xrpl_token_migrator.Tx.Contract.Cosmos.{Msg}
use tx_xrpl_token_migrator.Tx.Contract.Estimate.{Estimator}
use tx_xrpl_token_migrator.Cli.Flags.{
  Setting, FlagName, FlagValue, Flags, get_string, get_string_slice,
}
use tx_xrpl_token_migrator.Cli.Settings.{set_string_int64_if_not_zero, set_date_if_not_empty}
use tx_xrpl_token_migrator.Cli.Commands.{GeneratedTx, build_add_xrpl_tokens_cmd}
use tx_xrpl_token_migrator.Cli.Commands.Generates.{AddsTokens, add_tokens_generates}
use tx_xrpl_token_migrator.Tests.Samples.{sdk}
use tx_xrpl_token_migrator.Tests.Service.{outside, world}
use tx_xrpl_token_migrator.Tests.Cli.{backwards, token_texts}

-- Any transaction takes 10 gas, and gas costs 3.
abbrev estimator : Estimator
estimator = record {
  pub_key_any = ok [];
  account_sequence = λ a. ok 1;
  encode_tx = λ key sequence msgs. ok [];
  simulate = λ bytes. ok 10;
  times_gas_multiplier = λ n. n;
  Decimal = ℤ;
  initial_gas_price = ok (pos 3);
  dec_of_uint64 = pos;
  dec_mul = λ a b. some (pos 30);
  truncate_int = λ d. d;
}

abbrev command_flags : Flags
command_flags FlagName.tx_chain_id = some (FlagValue.text (codes "test"))
command_flags FlagName.xrpl_token = some (FlagValue.texts token_texts)
command_flags (FlagName.setting Setting.tx_contract_address) = some (FlagValue.text (codes "tc"))
command_flags (FlagName.setting Setting.tx_sender_address) = some (FlagValue.text (codes "ts"))
command_flags _ = none

abbrev generated_tx : GeneratedTx
generated_tx = record {
  chain_id = codes "test";
  fees = record { denom = codes "utx"; amount = pos 30 };
  gas = 10;
  msgs = Msg.msg_execute_contract (codes "ts") (codes "tc") [] [] ∷ [];
}

add_tokens_run :
    build_add_xrpl_tokens_cmd sdk world outside command_flags backwards
      (ok (codes "k"))
      (λ ctx. estimator)
      (ok tt)
    ≡ ok generated_tx
unfolding build_add_xrpl_tokens_cmd get_string str_eq set_date_if_not_empty
    set_string_int64_if_not_zero get_string_slice
add_tokens_run = refl

add_tokens_generates_example :
    AddsTokens sdk world outside command_flags backwards
      (ok (codes "k"))
      (λ ctx. estimator)
      (ok tt)
      generated_tx
add_tokens_generates_example =
    add_tokens_generates sdk world outside command_flags backwards (ok (codes "k"))
      (λ ctx. estimator) (ok tt) generated_tx add_tokens_run
