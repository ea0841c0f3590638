-- ===== src/Xrpl/Signer/Keyring.antt =====
-- `KeyringTxSigner` of relayer/client/xrpl/signer.go. A signing has the transaction as it is afterwards.
use tx_xrpl_token_migrator.Base.Str.{Str, codes}
use tx_xrpl_token_migrator.Base.Go.{Go, ok, err, panics, ◌>>=◌}
use tx_xrpl_token_migrator.Xrpl.Rpc.Call.{wrap_err}
use tx_xrpl_token_migrator.Xrpl.Signer.{
  Signing, SignerItem, ripple_key, extract_account_from_xrpl_key, extract_pub_key_from_xrpl_key,
  extract_xrpl_priv_key,
}

module _ (G : Signing) (key_name : Str) where
  -- What is done with the key, if there is one.
  abbrev with_key : {A : Type 0} → G.Txn → (G.PrivKey → G.Txn × Go A) → G.Txn × Go A
  with_key txn use_key = elim (extract_xrpl_priv_key G key_name) [
    | ok key ↦ use_key key
    | err e ↦ (txn, err e)
    | panics ↦ (txn, panics)
  ]

  -- `Sign`
  unfoldable pub sign : G.Txn → G.Txn × Go (Unit {0})
  unfolding extract_xrpl_priv_key ripple_key wrap_err
  sign txn = with_key txn (λ key.
      let (txn', result) = G.sign (ripple_key G key) txn in
      (txn', wrap_err (codes "failed to sign XRPL transaction with keyring") result))

  -- `MultiSign`
  unfoldable pub multi_sign : G.Txn → G.Txn × Go SignerItem
  unfolding extract_xrpl_priv_key ripple_key extract_account_from_xrpl_key
  multi_sign txn = with_key txn (λ key.
      let acc = extract_account_from_xrpl_key G key in
      let (txn', result) = G.multi_sign (ripple_key G key) acc txn in
      (
        txn',
        result >>= λ u. ok (record {
          account = acc;
          txn_signature = G.get_signature txn';
          signing_pub_key = G.get_public_key txn';
        }),
      ))

  -- `Account`
  unfoldable pub account : Go Str
  unfolding extract_xrpl_priv_key extract_account_from_xrpl_key
  account = extract_xrpl_priv_key G key_name >>= λ key. ok (extract_account_from_xrpl_key G key)

  -- `PubKey`
  unfoldable pub pub_key : Go Str
  unfolding extract_xrpl_priv_key extract_pub_key_from_xrpl_key
  pub_key = extract_xrpl_priv_key G key_name >>= λ key. ok (extract_pub_key_from_xrpl_key G key)
