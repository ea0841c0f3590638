-- ===== src/Service/New/Agree.antt =====
-- The parts that `NewServices` makes fit together.
use tx_xrpl_token_migrator.Base.{
  ℕ, ◌≡◌, refl, ap, sym, subst, ◌∙◌, Bool, some, List, [], ◌∷◌, map, All,
}
use tx_xrpl_token_migrator.Base.Str.{Str, codes}
use tx_xrpl_token_migrator.Base.Go.{Go, ok, err, panics, >>=-eq-ok, >>=-ok, ok_injective}
use tx_xrpl_token_migrator.Sdk.{Sdk, Address}
use tx_xrpl_token_migrator.Ripple.{Ripple}
use tx_xrpl_token_migrator.Xrpl.Rpc.Call.{wrap_err, wrap_err-eq-ok}
use tx_xrpl_token_migrator.Tx.Contract.Types.{
  Config, ContractClientConfig, default_contract_client_config,
}
use tx_xrpl_token_migrator.Tx.Contract.Query.{get_contract_config}
use tx_xrpl_token_migrator.Audit.Types.{XrplTokenConfig, AuditorConfig}
use tx_xrpl_token_migrator.Watcher.{ConfigWatcher, initialize}
use tx_xrpl_token_migrator.Cli.Settings.{ServicesConfig}
use tx_xrpl_token_migrator.Service.{create_finders_and_audit_config}
use tx_xrpl_token_migrator.Service.Tokens.{
  audited, finder_multiplier, token_multiplier, finders_audited,
}
use tx_xrpl_token_migrator.Service.Clients.{
  Network, World, Context, build_tx_client_context, contract_address_of,
}
use tx_xrpl_token_migrator.Service.New.Alike.{IsSetUp, tokens_alike}
use tx_xrpl_token_migrator.Service.New.{
  Services, Auditor, audit_tokens, new_auditor, sender_address_of, keyring_of, initialized,
  settings_of, services_from, wire_services, new_services, FinderConfig,
}

module _ (R : Ripple) (S : Sdk) (W : World) where
  initialized_version :
      (answer : Go Config) (w : ConfigWatcher)
      → initialized R S W answer ≡ ok w
      → (config : Config) × (answer ≡ ok config) × (w.current_version ≡ config.version)
  unfolding initialized initialize
  initialized_version (ok config) w h =
      (config, refl, ap (λ (z : ConfigWatcher). z.current_version) (sym (ok_injective h)))
  initialized_version (err e) w h = cc
  initialized_version panics w h = cc

  -- What the auditor is made from.
  record IsAudit (cfg : ServicesConfig) (denom : Str) (contract_address : Address) (config : Config)
      (a : AuditorConfig) : Type 0 where
    pub tokens : audit_tokens R S W config.xrpl_tokens ≡ ok a.xrpl_tokens
    pub address : a.contract_address ≡ S.address_string contract_address
    pub same_denom : a.tx_denom ≡ denom
    pub decimals : a.tx_decimals ≡ 6
    pub memo_suffix : a.xrpl_memo_suffix ≡ cfg.xrpl_memo_suffix

  auditor_made :
      (n : ℕ) (cfg : ServicesConfig) (kr : W.Keyring) (auditor : Auditor) (network : Network)
      (contract_address : Address) (ctx : Context S W)
      → new_auditor R S W n cfg kr ≡ ok auditor
      → W.network_config_by_chain_id cfg.tx_chain_id ≡ ok network
      → contract_address_of S W cfg ≡ ok contract_address
      → build_tx_client_context S W cfg kr ≡ ok ctx
      → (config : Config) × (get_contract_config S
            (W.chain ctx n)
            (default_contract_client_config (some contract_address) network.denom)
          ≡ ok config)
        × IsAudit cfg network.denom contract_address config auditor.cfg
  unfolding new_auditor
  auditor_made n cfg kr auditor network contract_address ctx h net at_address connection =
      let (u, registered, h1) = >>=-eq-ok W.register_metrics _ h in
      let h2 = >>=-ok _ connection (>>=-ok _ at_address (>>=-ok _ net h1)) in
      let client_cfg = default_contract_client_config (some contract_address) network.denom in
      let (config, asked, h3) =
        >>=-eq-ok
          (wrap_err (codes "failed to query contract config")
            (get_contract_config S (W.chain ctx n) client_cfg))
          _ h2 in
      let (tokens, read, made) = >>=-eq-ok (audit_tokens R S W config.xrpl_tokens) _ h3 in
      let e = ok_injective made in
      (
        config,
        wrap_err-eq-ok (codes "failed to query contract config") _ asked,
        record {
          tokens = read ∙ ap (λ (a : Auditor). ok a.cfg.xrpl_tokens) e;
          address = ap (λ (a : Auditor). a.cfg.contract_address) (sym e);
          same_denom = ap (λ (a : Auditor). a.cfg.tx_denom) (sym e);
          decimals = ap (λ (a : Auditor). a.cfg.tx_decimals) (sym e);
          memo_suffix = ap (λ (a : Auditor). a.cfg.xrpl_memo_suffix) (sym e);
        },
      )

  -- The parts of the relayer fit together.
  pub record AreAgreed (services : Services S W) : Type 0 where
    pub contract_cfg : Config
    pub asked :
        get_contract_config S
          (W.chain services.tx_contract_client.client_ctx 0)
          services.tx_contract_client.cfg
        ≡ ok contract_cfg
    pub watched : services.config_watcher.current_version ≡ contract_cfg.version
    pub same_tokens : services.auditor.cfg.xrpl_tokens ≡ map audited services.finders
    pub same_multipliers :
        map finder_multiplier services.finders ≡ map token_multiplier contract_cfg.xrpl_tokens
    pub same_contract :
        (address : Address) × (services.tx_contract_client.cfg.contract_address ≡ some address)
        × (services.auditor.cfg.contract_address ≡ S.address_string address)
    pub same_settings :
        All
          (λ f.
            (f.xrpl_memo_suffix ≡ services.auditor.cfg.xrpl_memo_suffix)
            × (f.tx_denom ≡ services.auditor.cfg.tx_denom)
            × (f.tx_decimals ≡ services.auditor.cfg.tx_decimals))
          services.finders

  settled_finders :
      (cfg : ServicesConfig) (denom : Str) (finders : List FinderConfig) (a : AuditorConfig)
      → All (IsSetUp (settings_of R S W cfg denom)) finders
      → a.xrpl_memo_suffix ≡ cfg.xrpl_memo_suffix
      → a.tx_denom ≡ denom
      → a.tx_decimals ≡ 6
      → All
          (λ f.
            (f.xrpl_memo_suffix ≡ a.xrpl_memo_suffix)
            × (f.tx_denom ≡ a.tx_denom)
            × (f.tx_decimals ≡ a.tx_decimals))
          finders
  settled_finders cfg denom [] a set suffix d n = tt
  settled_finders cfg denom (f ∷ finders) a (one, set) suffix d n = (
    (one.memo_suffix ∙ sym suffix, one.denom ∙ sym d, one.decimals ∙ sym n),
    settled_finders cfg denom finders a set suffix d n,
  )

  same_answer :
      (ctx : Context S W) (client_cfg : ContractClientConfig) (n : ℕ) {config other : Config}
      → ((ctx : Context S W) (n : ℕ) → W.chain ctx n ≡ W.chain ctx 0)
      → get_contract_config S (W.chain ctx 0) client_cfg ≡ ok config
      → get_contract_config S (W.chain ctx n) client_cfg ≡ ok other
      → other ≡ config
  same_answer ctx client_cfg n unchanged h h' =
      ok_injective (sym h' ∙ (ap (λ C. get_contract_config S C client_cfg) (unchanged ctx n) ∙ h))

  -- The parts fit together if all three queries had the same answer.
  parts_agree :
      (cfg : ServicesConfig) (denom : Str) (sender contract_address : Address) (ctx : Context S W)
      (config : Config) (finders : List FinderConfig) (audits : List XrplTokenConfig)
      (watcher : ConfigWatcher) (auditor : Auditor)
      → get_contract_config S
          (W.chain ctx 0)
          (default_contract_client_config (some contract_address) denom)
        ≡ ok config
      → create_finders_and_audit_config R (settings_of R S W cfg denom) config.xrpl_tokens
        ≡ ok (finders, audits)
      → watcher.current_version ≡ config.version
      → IsAudit cfg denom contract_address config auditor.cfg
      → AreAgreed
          (services_from R S W cfg denom sender contract_address ctx finders watcher auditor)
  unfolding services_from
  parts_agree cfg denom sender contract_address ctx config finders audits watcher auditor asked
        created watched audit =
      let (settings, alike) = tokens_alike R S W _ config.xrpl_tokens finders audits created in
      let (same, kept) = finders_audited R _ config.xrpl_tokens finders audits created in
      record {
        contract_cfg = config;
        asked = asked;
        watched = watched;
        same_tokens = ok_injective (sym audit.tokens ∙ alike) ∙ same;
        same_multipliers = kept;
        same_contract = (contract_address, refl, audit.address);
        same_settings =
            settled_finders cfg denom finders auditor.cfg settings audit.memo_suffix
              audit.same_denom audit.decimals;
      }

  wired_agree :
      (cfg : ServicesConfig) (kr : W.Keyring) (network : Network)
      (sender contract_address : Address) (ctx : Context S W) (services : Services S W)
      → ((ctx : Context S W) (n : ℕ) → W.chain ctx n ≡ W.chain ctx 0)
      → W.network_config_by_chain_id cfg.tx_chain_id ≡ ok network
      → contract_address_of S W cfg ≡ ok contract_address
      → build_tx_client_context S W cfg kr ≡ ok ctx
      → wire_services R S W cfg kr network.denom sender contract_address ctx ≡ ok services
      → AreAgreed services
  unfolding wire_services
  wired_agree cfg kr network sender contract_address ctx services unchanged net at_address
        connection h =
      let client_cfg = default_contract_client_config (some contract_address) network.denom in
      let (config, asked, h1) =
        >>=-eq-ok
          (wrap_err (codes "failed to query initial contract config")
            (get_contract_config S (W.chain ctx 0) client_cfg))
          _ h in
      let ((finders, audits), created, h2) =
        >>=-eq-ok
          (wrap_err (codes "failed to create finders") (
            create_finders_and_audit_config R (settings_of R S W cfg network.denom)
              config.xrpl_tokens))
          _ h1 in
      let (watcher, started, h3) =
        >>=-eq-ok
          (wrap_err (codes "failed to initialize config watcher")
            (initialized R S W (get_contract_config S (W.chain ctx 1) client_cfg)))
          _ h2 in
      let (auditor, audit_made, h4) =
        >>=-eq-ok (wrap_err (codes "failed to create auditor") (new_auditor R S W 2 cfg kr)) _ h3 in
      let first = wrap_err-eq-ok (codes "failed to query initial contract config") _ asked in
      let (config1, asked1, version) =
        initialized_version _ watcher
          (wrap_err-eq-ok (codes "failed to initialize config watcher") _ started) in
      let (config2, asked2, audit) =
        auditor_made 2 cfg kr auditor network contract_address ctx
          (wrap_err-eq-ok (codes "failed to create auditor") _ audit_made) net at_address
          connection in
      let same1 : config1 ≡ config = same_answer ctx client_cfg 1 unchanged first asked1 in
      let same2 : config2 ≡ config = same_answer ctx client_cfg 2 unchanged first asked2 in
      subst AreAgreed (ok_injective h4) (
        parts_agree cfg network.denom sender contract_address ctx config finders audits watcher
          auditor first (wrap_err-eq-ok (codes "failed to create finders") _ created)
          (version ∙ ap (λ (c : Config). c.version) same1)
          (subst (λ c. IsAudit cfg network.denom contract_address c auditor.cfg) same2 audit))

  -- Where the contract answers all queries alike while `NewServices` makes the parts of the relayer,
  -- they fit together: the version that is watched is that of the configuration whose tokens the
  -- finders look for; the auditor has the same tokens in the same order, with the multipliers of the
  -- contract, and the address that the client sends to; and the finders use the denomination, the
  -- decimals and the memo suffix of the auditor.
  pub services_agree :
      (cfg : ServicesConfig) (kr : W.Keyring) (use_in_memory_kr : Bool) (services : Services S W)
      → ((ctx : Context S W) (n : ℕ) → W.chain ctx n ≡ W.chain ctx 0)
      → new_services R S W cfg kr use_in_memory_kr ≡ ok services
      → AreAgreed services
  unfolding new_services
  services_agree cfg kr use_in_memory_kr services unchanged h =
      let (u, registered, h1) = >>=-eq-ok W.register_metrics _ h in
      let (network, net, h2) = >>=-eq-ok (W.network_config_by_chain_id cfg.tx_chain_id) _ h1 in
      let (sender, from, h3) = >>=-eq-ok (sender_address_of R S W cfg) _ h2 in
      let (kr', keys, h4) = >>=-eq-ok (keyring_of R S W use_in_memory_kr sender kr) _ h3 in
      let (contract_address, at_address, h5) = >>=-eq-ok (contract_address_of S W cfg) _ h4 in
      let (ctx, connection, h6) = >>=-eq-ok (build_tx_client_context S W cfg kr') _ h5 in
      wired_agree cfg kr' network sender contract_address ctx services unchanged net at_address
        connection h6
