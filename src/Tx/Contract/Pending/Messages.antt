-- ===== src/Tx/Contract/Pending/Messages.antt =====
-- `BuildExecutePendingMessages`: which messages it builds.
use tx_xrpl_token_migrator.Base.{
  ◌==◌, ◌≡◌, ◌≢◌, refl, sym, ap, ◌∙◌, inl, inr, ◌↔◌, Bool, true, false, ◌||◌, List, [], ◌∷◌, map,
  filter, All, All-map, arith, length, Bool-cases,
}
use tx_xrpl_token_migrator.Base.Str.{Str, str_eq}
use tx_xrpl_token_migrator.Base.Go.{Error, ok, err, ok_injective}
use tx_xrpl_token_migrator.Sdk.{Sdk, Address}
use tx_xrpl_token_migrator.Tx.Contract.Types.{ContractClientConfig, PendingTransaction}
use tx_xrpl_token_migrator.Tx.Contract.Cosmos.{Chain, Msg}
use tx_xrpl_token_migrator.Tx.Contract.Pending.{
  Split, has_id, delete, message_of, execute_messages, messages_of,
}
use tx_xrpl_token_migrator.Tx.Contract.Pending.Ids.{
  filter-cong, has_id-delete, delete-absent, id_of, delete_all, delete_all-nil_iff,
}

-- No two transactions have the same id.
abbrev pub IsDistinct : List PendingTransaction → Type 0
IsDistinct [] = Unit
IsDistinct (tx ∷ txs) =
    All (λ other. str_eq tx.evidence_id other.evidence_id ≡ false) txs × IsDistinct txs

-- All transactions where no ids are given, else those with a given id.
abbrev pub selected : Bool → List Str → PendingTransaction → Bool
selected include_all ids tx = include_all || has_id tx.evidence_id ids

module _ (S : Sdk) (C : Chain) (cfg : ContractClientConfig) (sender : Address)
    (message : PendingTransaction → Msg) where
  -- The message of the transaction can be built: its coins are valid, and the addresses are known.
  abbrev pub Builds : PendingTransaction → Type 0
  Builds tx = message_of S C cfg sender tx ≡ ok (message tx)

  execute_messages-eq :
      (include_all : Bool) (ids : List Str) (txs : List PendingTransaction)
      → IsDistinct txs
      → All Builds txs
      → execute_messages S C cfg include_all sender ids txs
        ≡ ok (map message (filter (selected include_all ids) txs), delete_all txs ids)
  unfolding execute_messages
  execute_messages-eq include_all ids [] d builds = refl
  execute_messages-eq include_all ids (tx ∷ txs) d builds =
      elim (Bool-cases (include_all || has_id tx.evidence_id ids)) [
        | inl y ↦
            rw
              (
                y,
                builds.0,
                execute_messages-eq include_all (delete tx.evidence_id ids) txs d.1 builds.1,
                execute_messages,
              )
              (ap
                (λ (xs : List PendingTransaction).
                  ok (message tx ∷ map message xs, delete_all txs (delete tx.evidence_id ids)))
                (filter-cong _ _ txs (
                  All-map txs (λ other h. ap (λ b. include_all || b) (has_id-delete _ _ ids h))
                    d.0)))
        | inr n ↦
            let absent : has_id tx.evidence_id ids ≡ false = ground arith in
            rw
              (
                n,
                execute_messages-eq include_all ids txs d.1 builds.1,
                delete-absent tx.evidence_id ids absent,
                execute_messages,
              )
              refl
      ]

  all_found :
      (ids : List Str) (s : Split)
      → IsDistinct s.approved
      → All Builds s.approved
      → (length (delete_all s.approved ids) == 0) ≡ true
      → messages_of S C cfg sender ids s
        ≡ ok (map message (filter (selected (length ids == 0) ids) s.approved))
  unfolding messages_of
  all_found ids s d builds y =
      rw (execute_messages-eq (length ids == 0) ids s.approved d builds, y, messages_of) refl

  some_left :
      (ids : List Str) (s : Split)
      → IsDistinct s.approved
      → All Builds s.approved
      → (msgs : List Msg) → (length (delete_all s.approved ids) == 0) ≡ false
      → messages_of S C cfg sender ids s ≢ ok msgs
  unfolding messages_of
  some_left ids s d builds msgs n h =
      no_message _
        (rw (execute_messages-eq (length ids == 0) ids s.approved d builds, n, messages_of) at h)
    where
      no_message : (e : Error) → err e ≡ ok msgs → ⊥
      no_message e c = cc

  -- Where the approved transactions have different ids, and the message of each of them can be built,
  -- the call returns messages exactly if each requested id is that of an approved
  -- transaction, and they are the messages of the approved transactions with a requested id, or of
  -- all where none is requested, in order.
  pub messages_selected :
      (ids : List Str) (s : Split) (msgs : List Msg)
      → IsDistinct s.approved
      → All Builds s.approved
      → (messages_of S C cfg sender ids s ≡ ok msgs) ↔ (
          All (λ id. has_id id (map id_of s.approved) ≡ true) ids
          × (msgs ≡ map message (filter (selected (length ids == 0) ids) s.approved)))
  messages_selected ids s msgs d builds =
      elim (Bool-cases (length (delete_all s.approved ids) == 0)) [
        | inl y ↦ (
          λ h. (
            (delete_all-nil_iff s.approved ids).0 (empty (delete_all s.approved ids) y),
            ok_injective (sym h ∙ all_found ids s d builds y),
          ),
          λ k. all_found ids s d builds y ∙ ap ok (sym k.1),
        )
        | inr n ↦ (
          λ h. absurd (some_left ids s d builds msgs n h),
          λ k. absurd (
              no_contradiction (
                sym n
                ∙ ap (λ (xs : List Str). length xs == 0)
                    ((delete_all-nil_iff s.approved ids).1 k.0))),
        )
      ]
    where
      no_contradiction : false ≡ true → ⊥
      no_contradiction c = cc

      empty : (xs : List Str) → (length xs == 0) ≡ true → xs ≡ []
      empty [] h = refl
      empty (x ∷ xs) h = absurd (ground arith)
