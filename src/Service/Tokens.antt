-- ===== src/Service/Tokens.antt =====
-- The finders and the auditor agree on the tokens, and every token has both.
use tx_xrpl_token_migrator.Base.{
  ◌≡◌, refl, sym, ap, ◌∙◌, subst, inl, inr, List, [], ◌∷◌, map, Option-cases,
}
use tx_xrpl_token_migrator.Base.Str.{Str}
use tx_xrpl_token_migrator.Base.Go.{Go, ok, err, >>=-eq-ok, ok_injective, Error}
use tx_xrpl_token_migrator.Ripple.{Ripple}
use tx_xrpl_token_migrator.Finder.Build.{Config}
use tx_xrpl_token_migrator.Tx.Contract.Types.{XrplToken}
use tx_xrpl_token_migrator.Audit.Types.{XrplTokenConfig}
use tx_xrpl_token_migrator.Service.{Settings, token_configs, create_finders_and_audit_config}

-- The part of a finder's configuration that the auditor has too.
abbrev pub audited : Config → XrplTokenConfig
audited cfg = record {
  xrpl_issuer = cfg.xrpl_issuer;
  xrpl_currency = cfg.xrpl_currency;
  multiplier = cfg.multiplier;
}

abbrev pub token_multiplier : XrplToken → Str
token_multiplier token = token.multiplier

abbrev pub finder_multiplier : Config → Str
finder_multiplier cfg = cfg.multiplier

cons_path : {A : Type 0} {x y : A} {xs ys : List A} → x ≡ y → xs ≡ ys → x ∷ xs ≡ y ∷ ys
cons_path e es = cc

abbrev Agree : List XrplToken → List Config × List XrplTokenConfig → Type 0
Agree tokens (finders, audits) =
    (audits ≡ map audited finders) × (map finder_multiplier finders ≡ map token_multiplier tokens)

module _ (R : Ripple) (s : Settings) where
  one_token :
      (token : XrplToken) (f : Config) (a : XrplTokenConfig)
      → token_configs R s token ≡ ok (f, a)
      → (a ≡ audited f) × (f.multiplier ≡ token.multiplier)
  unfolding token_configs
  one_token token f a h = elim (Option-cases (R.new_account_from_address token.issuer)) [
    | inl n ↦ absurd (no_error _ (rw (n, token_configs) at h))
    | inr (i, e) ↦ elim (Option-cases (R.new_currency token.currency)) [
      | inl n ↦ absurd (no_error _ (rw (e, n, token_configs) at h))
      | inr (c, e') ↦
          let both = ok_injective (rw (e, e', token_configs) at h) in
          (
            ap (λ (p : Config × XrplTokenConfig). p.1) (sym both)
                ∙ ap (λ (p : Config × XrplTokenConfig). audited p.0) both,
            ap (λ (p : Config × XrplTokenConfig). p.0.multiplier) (sym both),
          )
    ]
  ]
    where
      no_error : (e : Error) → ◌≡◌ {A = Go (Config × XrplTokenConfig)} (err e) (ok (f, a)) → ⊥
      no_error e c = cc

  -- Where the configurations are created, the auditor checks exactly the tokens that the finders
  -- look for, in the same order and with the same multipliers, which are those of the contract's
  -- tokens.
  pub finders_audited :
      (tokens : List XrplToken) (finders : List Config) (audits : List XrplTokenConfig)
      → create_finders_and_audit_config R s tokens ≡ ok (finders, audits)
      → (audits ≡ map audited finders)
        × (map finder_multiplier finders ≡ map token_multiplier tokens)
  unfolding create_finders_and_audit_config
  finders_audited [] finders audits h = subst (Agree []) (ok_injective h) (refl, refl)
  finders_audited (token ∷ tokens) finders audits h =
      let ((f, a), e, k) = >>=-eq-ok (token_configs R s token) _ h in
      let ((fs, others), e', k') = >>=-eq-ok (create_finders_and_audit_config R s tokens) _ k in
      let (same, kept) = one_token token f a e in
      let (all_same, all_kept) = finders_audited tokens fs others e' in
      subst (Agree (token ∷ tokens)) (ok_injective k')
        (cons_path same all_same, cons_path kept all_kept)
