-- ===== src/Tx/Contract/Estimate.antt =====
-- `EstimateExecuteMessages` of relayer/client/tx/contract.go: the gas and the fee of messages.
use tx_xrpl_token_migrator.Base.{ℕ, Option, List}
use tx_xrpl_token_migrator.Base.Int.{ℤ}
use tx_xrpl_token_migrator.Base.Str.{Str, codes}
use tx_xrpl_token_migrator.Base.Go.{Go, ok, ◌>>=◌, or_panic}
use tx_xrpl_token_migrator.Sdk.{Sdk, Address, Coin}
use tx_xrpl_token_migrator.Xrpl.Rpc.Call.{wrap_err}
use tx_xrpl_token_migrator.Tx.Contract.Types.{ContractClientConfig}
use tx_xrpl_token_migrator.Tx.Contract.Cosmos.{Msg}

-- The packages of cosmos-sdk and coreum behind a context, which are not part of the repository.
pub record Estimator : Type 1 where
  -- The public key of a simulated signer, and the sequence of an account.
  pub pub_key_any : Go Str
  pub account_sequence : Address → Go ℕ
  -- The bytes of a transaction to simulate, with the key, the sequence and the messages.
  pub encode_tx : Str → ℕ → List Msg → Go Str
  pub simulate : Str → Go ℕ
  -- The product with the float `GasMultiplier`, back as a `uint64`.
  pub times_gas_multiplier : ℕ → ℕ
  -- `sdkmath.LegacyDec`: a product that is out of range panics (none).
  pub Decimal : Type 0
  pub initial_gas_price : Go Decimal
  pub dec_of_uint64 : ℕ → Decimal
  pub dec_mul : Decimal → Decimal → Option Decimal
  pub truncate_int : Decimal → ℤ

module _ (S : Sdk) (E : Estimator) (cfg : ContractClientConfig) where
  -- `calculateGas`
  unfoldable pub calculate_gas : Address → List Msg → Go ℕ
  unfolding wrap_err
  calculate_gas sender msgs = E.pub_key_any >>= λ key. E.account_sequence sender >>= λ sequence.
      E.encode_tx key sequence msgs >>= λ tx_bytes.
      wrap_err (codes "transaction estimation failed") (E.simulate tx_bytes) >>= λ gas_used.
      ok (E.times_gas_multiplier gas_used)

  -- `EstimateExecuteMessages`
  unfoldable pub estimate_execute_messages : Address → List Msg → Go (Coin × ℕ)
  unfolding calculate_gas
  estimate_execute_messages sender msgs = calculate_gas sender msgs >>= λ gas.
      E.initial_gas_price >>= λ price.
      or_panic (E.dec_mul price (E.dec_of_uint64 gas)) >>= λ amount.
      or_panic (S.new_coin cfg.tx_denom (E.truncate_int amount)) >>= λ fees. ok (fees, gas)
