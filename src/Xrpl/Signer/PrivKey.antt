-- ===== src/Xrpl/Signer/PrivKey.antt =====
-- `PrivKeyTxSigner` of relayer/client/xrpl/signer.go. A signing has the transaction as it is afterwards.
use tx_xrpl_token_migrator.Base.Str.{Str, codes}
use tx_xrpl_token_migrator.Base.Go.{Go, ok, ◌>>=◌}
use tx_xrpl_token_migrator.Xrpl.Rpc.Call.{wrap_err}
use tx_xrpl_token_migrator.Xrpl.Signer.{
  Signing, SignerItem, ripple_key, extract_account_from_xrpl_key, extract_pub_key_from_xrpl_key,
}

module _ (G : Signing) (priv_key : G.PrivKey) where
  -- `Sign`
  unfoldable pub sign : G.Txn → G.Txn × Go (Unit {0})
  unfolding ripple_key wrap_err
  sign txn =
      let (txn', result) = G.sign (ripple_key G priv_key) txn in
      (txn', wrap_err (codes "failed to sign XRPL transaction with keyring") result)

  -- `MultiSign`
  unfoldable pub multi_sign : G.Txn → G.Txn × Go SignerItem
  unfolding ripple_key extract_account_from_xrpl_key
  multi_sign txn =
      let acc = extract_account_from_xrpl_key G priv_key in
      let (txn', result) = G.multi_sign (ripple_key G priv_key) acc txn in
      (
        txn',
        result >>= λ u. ok (record {
          account = acc;
          txn_signature = G.get_signature txn';
          signing_pub_key = G.get_public_key txn';
        }),
      )

  -- `Account`
  unfoldable pub account : Str
  unfolding extract_account_from_xrpl_key
  account = extract_account_from_xrpl_key G priv_key

  -- `PubKey`
  unfoldable pub pub_key : Str
  unfolding extract_pub_key_from_xrpl_key
  pub_key = extract_pub_key_from_xrpl_key G priv_key
