-- ===== src/Tx/Contract/Errors.antt =====
-- The classes of the contract's errors in relayer/client/tx/contract.go: an error is told by a
-- text inside its message.
use tx_xrpl_token_migrator.Base.{◌≡◌, Bool, true, false, Option, none, some}
use tx_xrpl_token_migrator.Base.Str.{Str, codes}
use tx_xrpl_token_migrator.Base.Substring.{contains, contains-append}
use tx_xrpl_token_migrator.Base.Go.{Error, wrap}

-- `isError`: a nil error is none.
unfoldable pub is_error : Option Error → Str → Bool
is_error none error_string = false
is_error (some e) error_string = contains e.message error_string

unfoldable pub is_unauthorized_error : Option Error → Bool
unfolding is_error
is_unauthorized_error e = is_error e (codes "Unauthorized")

unfoldable pub is_evidence_provided_error : Option Error → Bool
unfolding is_error
is_evidence_provided_error e = is_error e (codes "Sender already provided the evidence")

unfoldable pub is_transfer_sent_error : Option Error → Bool
unfolding is_error
is_transfer_sent_error e = is_error e (codes "Transfer already sent")

unfoldable pub is_transaction_not_found_error : Option Error → Bool
unfolding is_error
is_transaction_not_found_error e = is_error e (codes "Transaction not found")

unfoldable pub is_transaction_not_confirmed_error : Option Error → Bool
unfolding is_error
is_transaction_not_confirmed_error e = is_error e (codes "Transaction not confirmed")

unfoldable pub is_low_amount_error : Option Error → Bool
unfolding is_error
is_low_amount_error e = is_error e (codes "The amount is too low")

unfoldable pub is_funds_mismatch_error : Option Error → Bool
unfolding is_error
is_funds_mismatch_error e = is_error e (codes "Funds mismatch")

-- An error that is wrapped keeps its class.
pub is_error-wrap :
    (m s : Str) (e : Error) → is_error (some e) s ≡ true → is_error (some (wrap m e)) s ≡ true
unfolding is_error
is_error-wrap m s e h = contains-append m _ s (contains-append (codes ": ") e.message s h)
