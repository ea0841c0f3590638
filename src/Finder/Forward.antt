-- ===== src/Finder/Forward.antt =====
-- The goroutine of SubscribeTXSendTransactions in relayer/finder/finder.go.
pub mod Exact
use tx_xrpl_token_migrator.Base.{
  Bool, true, false, Option, none, some, List, [], ◌∷◌, if◌then◌else◌,
}
use tx_xrpl_token_migrator.Base.Go.{Go, ok, err, panics}
use tx_xrpl_token_migrator.Rat.{RatParser}
use tx_xrpl_token_migrator.Ripple.{Ripple}
use tx_xrpl_token_migrator.Sdk.{Sdk}
use tx_xrpl_token_migrator.Xrpl.Model.{Transaction}
use tx_xrpl_token_migrator.Xrpl.Scanner.{Ending}
use tx_xrpl_token_migrator.Finder.Build.{Pending, Config, build_pending_transaction}

-- What a `select` finds: the cancelled context, or a transaction of the scanner, and whether the
-- receiver would take a transfer that is sent then.
pub data Inbound (R : Ripple) : Type 0 where
  done : Inbound R
  receive : Transaction R → Bool → Inbound R

module _ (R : Ripple) (S : Sdk) (P : RatParser) (cfg : Config) where
  -- The loop: what is sent to the channel, and how the goroutine stands. A send that the receiver
  -- does not take blocks for good, since it does not look at the context. An error is not among
  -- the results of the source's function; here it counts as a panic.
  unfoldable pub forward_pending : List (Inbound R) → List Pending × Ending
  forward_pending [] = ([], Ending.waiting)
  forward_pending (Inbound.done ∷ events) = ([], Ending.canceled)
  forward_pending (Inbound.receive xrpl_tx taken ∷ events) =
      let rest = forward_pending events in
      elim (build_pending_transaction R S P cfg xrpl_tx) [
        | ok none ↦ rest
        | ok (some pending_tx) ↦
            if taken then (pending_tx ∷ rest.0, rest.1) else ([], Ending.waiting)
        | err _ ↦ ([], Ending.crashed)
        | panics ↦ ([], Ending.crashed)
      ]
