-- ===== src/Tests/Window.antt =====
-- A node that serves any window of a history.
use mathlib.Core.Bool.{false≢true}
use tx_xrpl_token_migrator.Base.{
  ℕ, zero, suc, ◌≡◌, refl, sym, none, some, List, [], ◌∷◌, Bool, filter, arith, append-nil,
}
use tx_xrpl_token_migrator.Base.Int.{ℤ, pos, negsuc, ◌≤ℤ◌}
use tx_xrpl_token_migrator.Base.Str.{Str, codes}
use tx_xrpl_token_migrator.Base.Go.{ok, Cause}
use tx_xrpl_token_migrator.Xrpl.Rpc.Types.{RpcReq, TxItem, Node}
use tx_xrpl_token_migrator.Xrpl.Rpc.Call.{call_rpc, decode_response, wrap_err}
use tx_xrpl_token_migrator.Xrpl.Rpc.Pages.{account_tx_req, from_index}
use tx_xrpl_token_migrator.Xrpl.Rpc.Pages.Keeps.{answer}
use tx_xrpl_token_migrator.Xrpl.Scanner.Round.{window, in_window}
use tx_xrpl_token_migrator.Xrpl.Scanner.Covers.{ServesAll}
use tx_xrpl_token_migrator.Tests.Samples.{ripple}
use tx_xrpl_token_migrator.Tests.Xrpl.{rpc, last_marker, Serves-answer}

-- A body that is three numbers: the first ledger, and the last one with its sign.
abbrev pub body_of : ℤ → ℤ → Str
body_of (pos low) (pos high) = low ∷ 0 ∷ high ∷ []
body_of (pos low) (negsuc high) = low ∷ 1 ∷ high ∷ []
body_of (negsuc low) high = []

abbrev pub in_body : List (TxItem ripple) → Str → List (TxItem ripple)
in_body history (low ∷ zero ∷ high ∷ []) = window ripple (pos low) (pos high) history
in_body history (low ∷ suc k ∷ high ∷ []) = window ripple (pos low) (negsuc high) history
in_body history s = []

-- A node that answers a request by the history in its window, on one page.
abbrev pub windowed : List (TxItem ripple) → Node ripple
windowed history = record {
  do_json = λ req. elim req [
    | RpcReq.account_tx r ↦ ok (body_of r.ledger_index_min r.ledger_index_max)
    | _ ↦ ok []
  ];
  decode_error = λ body. some (record { error = []; error_code = pos 0; error_message = [] });
  decode_account_tx =
      λ body. some (record { transactions = in_body history body; marker = last_marker });
  decode_ledger_current = λ body. some (pos 95);
  decode_tx = λ body. none;
  done_after = none;
  done_cause = Cause.canceled;
}

from_index-pos : (n : ℕ) → from_index ripple (pos (suc n)) ≡ pos (suc n)
unfolding from_index
from_index-pos n = ground arith

from_index-neg : (n : ℕ) → from_index ripple (negsuc n) ≡ negsuc 0
unfolding from_index
from_index-neg n = ground arith

no_bound :
    (low m : ℕ) (high : ℤ) (x : TxItem ripple)
    → high ≤ℤ pos 0
    → in_window ripple (pos low) (negsuc m) x ≡ in_window ripple (pos low) high x
no_bound low m high x h = ground arith

filter-cong :
    (p q : TxItem ripple → Bool) (xs : List (TxItem ripple))
    → ((x : TxItem ripple) → p x ≡ q x)
    → filter p xs ≡ filter q xs
filter-cong p q [] h = refl
filter-cong p q (x ∷ xs) h = rw (h x, filter-cong p q xs h) refl

from_index-zero : from_index ripple (pos 0) ≡ negsuc 0
unfolding from_index
from_index-zero = refl

in_body-window :
    (history : List (TxItem ripple)) (low : ℕ) (high : ℤ)
    → in_body history (body_of (pos low) (from_index ripple high))
      ≡ window ripple (pos low) high history
in_body-window history low (pos zero) =
    rw from_index-zero (filter-cong _ _ history (λ x. no_bound low 0 (pos 0) x (omega arith)))
in_body-window history low (pos (suc m)) = rw (from_index-pos m) refl
in_body-window history low (negsuc m) =
    rw (from_index-neg m) (filter-cong _ _ history (λ x. no_bound low 0 (negsuc m) x (omega arith)))

windowed-answer :
    (history : List (TxItem ripple)) (low high : ℤ)
    → pos 1 ≤ℤ low
    → answer ripple rpc (codes "A") low high (windowed history) none
      ≡ ok (record { transactions = window ripple low high history; marker = last_marker })
unfolding call_rpc decode_response wrap_err account_tx_req
windowed-answer history (pos (suc n)) high l =
    rw (from_index-pos n) (rw (in_body-window history (suc n) high) refl)
windowed-answer history (pos zero) high l = absurd (omega arith)
windowed-answer history (negsuc n) high l = absurd (omega arith)

pub windowed-ServesAll :
    (history : List (TxItem ripple))
    → ServesAll ripple rpc (codes "A") history (windowed history ∷ [])
windowed-ServesAll history low high l =
    Serves-answer (windowed history) low high none (window ripple low high history) []
      (window ripple low high history) last_marker [] (windowed-answer history low high l)
      (sym (append-nil (window ripple low high history))) (λ d. refl)
      (λ d. absurd (false≢true (sym d)))
