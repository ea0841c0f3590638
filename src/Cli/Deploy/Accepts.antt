-- ===== src/Cli/Deploy/Accepts.antt =====
-- Which flags `DeployAndInstantiateCmd` accepts, and what it instantiates the contract with.
use tx_xrpl_token_migrator.Base.{
  ℕ, ◌<◌, ◌%◌, ◌^◌, ◌≡◌, ◌≢◌, refl, ap, subst, ◌∙◌, ◌↔◌, Option, some, [], All, arith,
}
use tx_xrpl_token_migrator.Base.Int.{ℤ, pos, negsuc, ◌≤ℤ◌, ◌<ℤ◌}
use tx_xrpl_token_migrator.Base.Str.{Str, codes}
use tx_xrpl_token_migrator.Base.Go.{ok, >>=-eq-ok, ok_injective}
use tx_xrpl_token_migrator.Sdk.{Sdk}
use tx_xrpl_token_migrator.Tx.Contract.Types.{DeployAndInstantiateConfig}
use tx_xrpl_token_migrator.Cli.Flags.{FlagName, FlagValue, Flags}
use tx_xrpl_token_migrator.Cli.Deploy.{
  trusted_addresses, owner_address, threshold_value, min_amount_value, max_amount_value, deploy_cfg,
  to_uint32,
}
use tx_xrpl_token_migrator.Cli.Deploy.Checks.{
  IsAddress, trusted_iff, owner_iff, threshold_iff, min_amount_iff, max_amount_iff,
}

module _ (S : Sdk) (new_int_from_string : Str → Option ℤ) (flags : Flags) where
  -- The flags describe the configuration.
  pub record IsDeployable (c : DeployAndInstantiateConfig) : Type 0 where
    pub trusted :
        flags FlagName.tx_contract_trusted_addresses ≡ some (FlagValue.texts c.trusted_addresses)
    pub some_trusted : c.trusted_addresses ≢ []
    pub trusted_valid : All (IsAddress S) c.trusted_addresses
    pub owned : flags FlagName.tx_contract_owner_address ≡ some (FlagValue.text c.owner)
    pub owner_valid : IsAddress S c.owner
    pub whole_threshold : ℕ
    pub thresholds :
        flags FlagName.tx_contract_threshold ≡ some (FlagValue.int (pos whole_threshold))
    pub some_threshold : 0 < whole_threshold
    pub cut_threshold : c.threshold ≡ whole_threshold % 2 ^ 32
    pub min_text : Str
    pub least : flags FlagName.tx_contract_min_amount ≡ some (FlagValue.text min_text)
    pub min_parsed : new_int_from_string min_text ≡ some c.min_amount
    pub min_positive : pos 0 <ℤ c.min_amount
    pub max_text : Str
    pub most : flags FlagName.tx_contract_max_amount ≡ some (FlagValue.text max_text)
    pub max_parsed : new_int_from_string max_text ≡ some c.max_amount
    pub max_least : c.min_amount ≤ℤ c.max_amount
    pub administered : c.admin ≡ c.owner
    pub no_tokens : c.xrpl_tokens ≡ []
    pub labelled : c.label ≡ codes "bank_threshold_send"

  natural : (t : ℤ) → pos 0 <ℤ t → (n : ℕ) × (t ≡ pos n) × (0 < n)
  natural (pos n) h = (n, refl, omega arith)
  natural (negsuc n) h = absurd (omega arith)

  flags_give :
      (c : DeployAndInstantiateConfig)
      → deploy_cfg S new_int_from_string flags ≡ ok c
      → IsDeployable c
  unfolding deploy_cfg
  flags_give c h =
      let (trusted, h_trusted, h1) =
        >>=-eq-ok (trusted_addresses S new_int_from_string flags) _ h in
      let (owner, h_owner, h2) = >>=-eq-ok (owner_address S new_int_from_string flags) _ h1 in
      let (threshold, h_threshold, h3) =
        >>=-eq-ok (threshold_value S new_int_from_string flags) _ h2 in
      let (least, h_least, h4) = >>=-eq-ok (min_amount_value S new_int_from_string flags) _ h3 in
      let (most, h_most, h5) =
        >>=-eq-ok (max_amount_value S new_int_from_string flags least) _ h4 in
      let (trusted_given, full, trusted_valid) =
        (trusted_iff S new_int_from_string flags trusted).0 h_trusted in
      let (owner_given, owner_valid) = (owner_iff S new_int_from_string flags owner).0 h_owner in
      let (threshold_given, positive) =
        (threshold_iff S new_int_from_string flags threshold).0 h_threshold in
      let (n, same, some_n) = natural threshold positive in
      let (min_text, min_given, min_parsed, min_positive) =
        (min_amount_iff S new_int_from_string flags least).0 h_least in
      let (max_text, max_given, max_parsed, max_least) =
        (max_amount_iff S new_int_from_string flags least most).0 h_most in
      subst IsDeployable (ok_injective h5) (record {
        trusted = trusted_given;
        some_trusted = full;
        trusted_valid = trusted_valid;
        owned = owner_given;
        owner_valid = owner_valid;
        whole_threshold = n;
        thresholds = threshold_given ∙ ap (λ t. some (FlagValue.int t)) same;
        some_threshold = some_n;
        cut_threshold = ap to_uint32 same;
        min_text = min_text;
        least = min_given;
        min_parsed = min_parsed;
        min_positive = min_positive;
        max_text = max_text;
        most = max_given;
        max_parsed = max_parsed;
        max_least = max_least;
        administered = refl;
        no_tokens = refl;
        labelled = refl;
      })

  flags_read :
      (c : DeployAndInstantiateConfig)
      → IsDeployable c
      → deploy_cfg S new_int_from_string flags ≡ ok c
  unfolding deploy_cfg
  flags_read c d =
      let trusted =
        (trusted_iff S new_int_from_string flags c.trusted_addresses).1
          (d.trusted, d.some_trusted, d.trusted_valid) in
      let owner = (owner_iff S new_int_from_string flags c.owner).1 (d.owned, d.owner_valid) in
      let threshold =
        (threshold_iff S new_int_from_string flags (pos d.whole_threshold)).1
          (d.thresholds, omega (arith, d.some_threshold)) in
      let least =
        (min_amount_iff S new_int_from_string flags c.min_amount).1
          (d.min_text, d.least, d.min_parsed, d.min_positive) in
      let most =
        (max_amount_iff S new_int_from_string flags c.min_amount c.max_amount).1
          (d.max_text, d.most, d.max_parsed, d.max_least) in
      rw (trusted, owner, threshold, least, most, deploy_cfg)
        (cc (d.administered, d.no_tokens, d.labelled, d.cut_threshold))

  -- `DeployAndInstantiateCmd` accepts the flags exactly when they name at least one trusted address
  -- and an owner, all of them valid, a threshold above zero, and amounts that are read as integers
  -- with 0 < min <= max. It then instantiates the contract with these, with the owner as its
  -- administrator, with no tokens, and with the threshold cut to 32 bits.
  pub deploy_accepts :
      (c : DeployAndInstantiateConfig)
      → (deploy_cfg S new_int_from_string flags ≡ ok c) ↔ IsDeployable c
  deploy_accepts c = (flags_give c, flags_read c)
