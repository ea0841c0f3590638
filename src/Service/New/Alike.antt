-- ===== src/Service/New/Alike.antt =====
-- The loops of `NewAuditor` and of `createFindersAndAuditConfig` give the same tokens.
use tx_xrpl_token_migrator.Base.{◌≡◌, refl, subst, inl, inr, List, [], ◌∷◌, All, Option-cases}
use tx_xrpl_token_migrator.Base.Go.{Go, ok, err, >>=-eq-ok, ok_injective, Error}
use tx_xrpl_token_migrator.Sdk.{Sdk}
use tx_xrpl_token_migrator.Ripple.{Ripple}
use tx_xrpl_token_migrator.Tx.Contract.Types.{XrplToken}
use tx_xrpl_token_migrator.Audit.Types.{XrplTokenConfig}
use tx_xrpl_token_migrator.Service.{Settings, token_configs, create_finders_and_audit_config}
use tx_xrpl_token_migrator.Service.Clients.{World}
use tx_xrpl_token_migrator.Service.New.{audit_tokens, FinderConfig}

-- The finder has the settings.
pub record IsSetUp (s : Settings) (f : FinderConfig) : Type 0 where
  pub start_ledger : f.xrpl_history_scan_start_ledger ≡ s.xrpl_history_scan_start_ledger
  pub indexes_back : f.xrpl_recent_scan_indexes_back ≡ s.xrpl_recent_scan_indexes_back
  pub memo_suffix : f.xrpl_memo_suffix ≡ s.xrpl_memo_suffix
  pub denom : f.tx_denom ≡ s.tx_denom
  pub decimals : f.tx_decimals ≡ s.tx_decimals

module _ (R : Ripple) (S : Sdk) (W : World) where
  -- One token is converted alike for a finder and for the auditor.
  token_alike :
      (s : Settings) (token : XrplToken) (f : FinderConfig) (a : XrplTokenConfig)
      (tokens : List XrplToken) (audits : List XrplTokenConfig)
      → token_configs R s token ≡ ok (f, a)
      → audit_tokens R S W tokens ≡ ok audits
      → IsSetUp s f × (audit_tokens R S W (token ∷ tokens) ≡ ok (a ∷ audits))
  unfolding token_configs audit_tokens
  token_alike s token f a tokens audits h rest =
      elim (Option-cases (R.new_account_from_address token.issuer)) [
        | inl n ↦ absurd (no_error _ (rw (n, token_configs) at h))
        | inr (i, e) ↦ elim (Option-cases (R.new_currency token.currency)) [
          | inl n ↦ absurd (no_error _ (rw (e, n, token_configs) at h))
          | inr (c, e') ↦
              subst
                (λ (p : FinderConfig × XrplTokenConfig).
                  IsSetUp s p.0 × (audit_tokens R S W (token ∷ tokens) ≡ ok (p.1 ∷ audits)))
                (ok_injective (rw (e, e', token_configs) at h))
                (
                  record {
                    start_ledger = refl;
                    indexes_back = refl;
                    memo_suffix = refl;
                    denom = refl;
                    decimals = refl;
                  },
                  rw (e, e', rest, audit_tokens) refl,
                )
        ]
      ]
    where
      no_error : (e : Error) → ◌≡◌ {A = Go (FinderConfig × XrplTokenConfig)} (err e) (ok (f, a)) → ⊥
      no_error e c = cc

  -- The auditor's loop gives the tokens of the finders' loop.
  pub tokens_alike :
      (s : Settings) (tokens : List XrplToken) (finders : List FinderConfig)
      (audits : List XrplTokenConfig)
      → create_finders_and_audit_config R s tokens ≡ ok (finders, audits)
      → All (IsSetUp s) finders × (audit_tokens R S W tokens ≡ ok audits)
  unfolding create_finders_and_audit_config audit_tokens
  tokens_alike s [] finders audits h =
      subst
        (λ (p : List FinderConfig × List XrplTokenConfig).
          All (IsSetUp s) p.0 × (audit_tokens R S W [] ≡ ok p.1))
        (ok_injective h) (tt, refl)
  tokens_alike s (token ∷ tokens) finders audits h =
      let ((f, a), e, k) = >>=-eq-ok (token_configs R s token) _ h in
      let ((fs, others), e', k') = >>=-eq-ok (create_finders_and_audit_config R s tokens) _ k in
      let (settings, alike) = tokens_alike s tokens fs others e' in
      let (one, both) = token_alike s token f a tokens others e alike in
      subst
        (λ (p : List FinderConfig × List XrplTokenConfig).
          All (IsSetUp s) p.0 × (audit_tokens R S W (token ∷ tokens) ≡ ok p.1))
        (ok_injective k') ((one, settings), both)
