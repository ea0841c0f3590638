-- ===== src/Xrpl/Signer.antt =====
-- relayer/client/xrpl/signer.go: signing with a key of the keyring, or with a key at hand.
pub mod PrivKey
pub mod Keyring
use tx_xrpl_token_migrator.Base.{
  ℕ, zero, suc, Option, none, some, List, [], ◌∷◌, ◌++◌, ◌-◌, length, take,
}
use tx_xrpl_token_migrator.Base.Str.{Str, codes}
use tx_xrpl_token_migrator.Base.Go.{Go, ok, err, panics, ◌>>=◌, new_error}
use tx_xrpl_token_migrator.Xrpl.Rpc.Call.{wrap_err}

-- The interface `Key` of the package crypto, for the sequence 0.
pub record RippleKey : Type 0 where
  pub id : Str
  pub private : Str
  pub public : Str

-- A key of the keyring: none where it is not a local one, else its private key, which may be missing
-- or no `PrivKey`.
pub data KeyRecord (PrivKey : Type 0) : Type 0 where
  not_local : KeyRecord PrivKey
  no_priv_key : KeyRecord PrivKey
  not_cast : KeyRecord PrivKey
  local : PrivKey → KeyRecord PrivKey

-- The packages of cosmos-sdk and rippledata. A signing changes the transaction that it is given.
pub record Signing : Type 1 where
  pub PrivKey : Type 0
  pub Txn : Type 0
  pub key : Str → Go (KeyRecord PrivKey)
  pub bytes : PrivKey → Str
  pub pub_key_bytes : PrivKey → Str
  pub sha256_ripe_md160 : Str → Str
  pub sign : RippleKey → Txn → Txn × Go (Unit {0})
  pub multi_sign : RippleKey → Str → Txn → Txn × Go (Unit {0})
  pub get_signature : Txn → Str
  pub get_public_key : Txn → Str

-- `rippledata.SignerItem`
pub record SignerItem : Type 0 where
  pub account : Str
  pub txn_signature : Str
  pub signing_pub_key : Str

-- Zero bytes, and `copy` into an array of zero bytes.
unfoldable pub zeros : ℕ → Str
zeros zero = []
zeros (suc n) = 0 ∷ zeros n

unfoldable pub copied : ℕ → Str → Str
unfolding zeros
copied size s = take size s ++ zeros (size - length s)

module _ (G : Signing) where
  -- The methods of `xrplPrivKey`.
  unfoldable pub ripple_key : G.PrivKey → RippleKey
  ripple_key priv_key = record {
    id = G.sha256_ripe_md160 (G.pub_key_bytes priv_key);
    private = G.bytes priv_key;
    public = G.pub_key_bytes priv_key;
  }

  -- `ExtractAccountFromXRPLKey`
  unfoldable pub extract_account_from_xrpl_key : G.PrivKey → Str
  unfolding ripple_key copied
  extract_account_from_xrpl_key priv_key = copied 20 (ripple_key priv_key).id

  -- `ExtractPubKeyFromXRPLKey`
  unfoldable pub extract_pub_key_from_xrpl_key : G.PrivKey → Str
  unfolding ripple_key copied
  extract_pub_key_from_xrpl_key priv_key = copied 33 (ripple_key priv_key).public

  -- `extractXRPLPrivKey`: a key that is not local has no `Local`, whose field is read.
  unfoldable pub extract_xrpl_priv_key : Str → Go G.PrivKey
  unfolding wrap_err
  extract_xrpl_priv_key key_name =
      wrap_err (codes "failed to get key from the keyring") (G.key key_name) >>= λ r. elim r [
        | KeyRecord.not_local ↦ panics
        | KeyRecord.no_priv_key ↦ err (new_error (codes "private key is not available"))
        | KeyRecord.not_cast ↦ err (new_error (codes "unable to cast any to cryptotypes.PrivKey"))
        | KeyRecord.local priv_key ↦ ok priv_key
      ]
