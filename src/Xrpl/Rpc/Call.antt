-- ===== src/Xrpl/Rpc/Call.antt =====
-- `callRPC` of relayer/client/xrpl/rpc.go, and the calls that make one request.
use tx_xrpl_token_migrator.Base.{
  ◌≡◌, ◌-◌, ◌&&◌, Bool, false, Option, none, some, ◌++◌, map, leb, if◌then◌else◌, not,
}
use tx_xrpl_token_migrator.Base.Int.{ℤ, pos, eqb_ℤ}
use tx_xrpl_token_migrator.Base.Str.{Str, codes}
use tx_xrpl_token_migrator.Base.Go.{Go, ok, err, panics, ◌>>=◌, new_error, wrap}
use tx_xrpl_token_migrator.Ripple.{Ripple}
use tx_xrpl_token_migrator.Xrpl.Model.{Transaction}
use tx_xrpl_token_migrator.Xrpl.Rpc.Types.{RpcReq, Node}
use tx_xrpl_token_migrator.Xrpl.Rpc.Convert.{convert_tx_info_to_transaction}

-- An error is given a message in front.
unfoldable pub wrap_err {ℓ} : {A : Type ℓ} → Str → Go A → Go A
wrap_err m (ok a) = ok a
wrap_err m (err e) = err (wrap m e)
wrap_err m panics = panics

pub wrap_err-eq-ok {ℓ} :
    {A : Type ℓ} (m : Str) (result : Go A) {a : A} → wrap_err m result ≡ ok a → result ≡ ok a
unfolding wrap_err
wrap_err-eq-ok m (ok b) h = h
wrap_err-eq-ok m (err e) h = cc
wrap_err-eq-ok m panics h = cc

-- `strings.ToUpper` of an ASCII text.
unfoldable pub to_upper : Str → Str
to_upper s = map (λ c. if leb b'a' c && leb c b'z' then c - 32 else c) s

module _ (R : Ripple) (node : Node R) where
  -- The decoder that `callRPC` hands to the HTTP client.
  unfoldable pub decode_response : {A : Type 0} → (Str → Option A) → Str → Go A
  decode_response decode body = elim (node.decode_error body) [
    | none ↦ err (new_error (codes "failed to decode http result to error result"))
    | some e ↦
        if not (eqb_ℤ e.error_code (pos 0))
        then err (
            new_error (
              codes "failed to call xrpl RPC, error:"
              ++ (e.error ++ (codes ", error message:" ++ e.error_message))))
        else elim (decode body) [
          | none ↦ err (new_error (codes "failed to decode http result to expected struct"))
          | some res ↦ ok res
        ]
  ]

  -- `callRPC`
  unfoldable pub call_rpc : {A : Type 0} → (Str → Option A) → RpcReq → Go A
  unfolding decode_response wrap_err
  call_rpc decode req =
      wrap_err (codes "failed to call xrpl RPC") (node.do_json req >>= decode_response decode)

  -- `GetCurrentLedger`
  unfoldable pub get_current_ledger : Go ℤ
  unfolding wrap_err
  get_current_ledger =
      wrap_err (codes "failed to call `ledger_current` method")
        (call_rpc node.decode_ledger_current RpcReq.ledger_current)

  -- `GetTransaction`
  unfoldable pub get_transaction : Str → Go (Transaction R × Bool)
  unfolding wrap_err
  get_transaction hash =
      wrap_err (codes "failed to call `tx` method")
        (call_rpc node.decode_tx (RpcReq.tx (record { hash = to_upper hash; binary = false })))
      >>= λ item.
          convert_tx_info_to_transaction R item.base_tx item.meta item.ledger_index item.validated
