-- ===== src/Metric/Recorder/Latest.antt =====
-- The gauge of the latest ledger index: the index that the update compares with is never written,
-- so the gauge follows every call and can fall.
use tx_xrpl_token_migrator.Base.{◌≡◌, refl, ◌∙◌, List, [], ◌∷◌, ◌++◌, arith}
use tx_xrpl_token_migrator.Base.Int.{ℤ, pos, ◌≤ℤ◌}
use tx_xrpl_token_migrator.Metric.Recorder.{
  Recorder, new_recorder, set_xrpl_latest_account_ledger_index,
}

-- Calls in turn.
abbrev pub set_all : List ℤ → Recorder → Recorder
set_all [] r = r
set_all (v ∷ vs) r = set_all vs (set_xrpl_latest_account_ledger_index v r)

index_stays :
    (v : ℤ) (r : Recorder)
    → (set_xrpl_latest_account_ledger_index v r).xrpl_latest_ledger_index
      ≡ r.xrpl_latest_ledger_index
unfolding set_xrpl_latest_account_ledger_index
index_stays v r = ground arith

set_all-index :
    (vs : List ℤ) (r : Recorder)
    → (set_all vs r).xrpl_latest_ledger_index ≡ r.xrpl_latest_ledger_index
set_all-index [] r = refl
set_all-index (v ∷ vs) r =
    set_all-index vs (set_xrpl_latest_account_ledger_index v r) ∙ index_stays v r

set_all-append : (vs ws : List ℤ) (r : Recorder) → set_all (vs ++ ws) r ≡ set_all ws (set_all vs r)
set_all-append [] ws r = refl
set_all-append (v ∷ vs) ws r = set_all-append vs ws (set_xrpl_latest_account_ledger_index v r)

-- On a new recorder, after any calls, a last call with an index that is not negative sets the
-- gauge to it, also where an earlier call had a greater one.
pub latest_follows_last :
    (vs : List ℤ) (v : ℤ)
    → pos 0 ≤ℤ v
    → (set_all (vs ++ v ∷ []) new_recorder).xrpl_latest_ledger_index_gauge ≡ v
unfolding set_xrpl_latest_account_ledger_index new_recorder
latest_follows_last vs v h =
    rw (set_all-append vs (v ∷ []) new_recorder) (ground (arith, set_all-index vs new_recorder))
