-- ===== src/Cli/Settings/Order.antt =====
-- The order in which the map of setters is iterated does not matter.
use tx_xrpl_token_migrator.Base.{
  ◌≡◌, ◌≢◌, refl, ap, sym, subst, ◌∙◌, ◌↔◌, inl, inr, List, [], ◌∷◌, All, Memᴰ, mem_cons-cases,
  not_mem_nil,
}
use tx_xrpl_token_migrator.Base.Str.{Str}
use tx_xrpl_token_migrator.Base.Go.{ok, ◌>>=◌, >>=-eq-ok, ok_injective}
use tx_xrpl_token_migrator.Cli.Flags.{Setting, FlagName, Flags, get_string}
use tx_xrpl_token_migrator.Cli.Settings.{
  ServicesConfig, Outside, default_cfg, setter, run_setters, read_services_config,
}
use tx_xrpl_token_migrator.Cli.Settings.Fields.{
  ValueOf, value_of, with_value, fixed, value_of-with_value, value_of-with_other, fixed-with_value,
  read, setter-read,
}
use tx_xrpl_token_migrator.Cli.Settings.Gives.{Gives, read_iff}

-- Each setting once.
abbrev IsFresh : Setting → List Setting → Type 0
IsFresh s order = All (λ t. s ≢ t) order

abbrev IsNodup : List Setting → Type 0
IsNodup [] = Unit
IsNodup (s ∷ order) = IsFresh s order × IsNodup order

-- An order in which the map can be iterated.
abbrev pub IsOrder : List Setting → Type 0
IsOrder order = IsNodup order × ((s : Setting) → Memᴰ s order)

same_config :
    (c d : ServicesConfig)
    → ((s : Setting) → value_of s c ≡ value_of s d)
    → fixed c ≡ fixed d
    → c ≡ d
same_config c d h e = cc (
  h Setting.xrpl_rpc_url,
  h Setting.xrpl_history_scan_start_ledger,
  h Setting.xrpl_recent_scan_indexes_back,
  h Setting.xrpl_recent_scan_skip_last_indexes,
  h Setting.xrpl_memo_suffix,
  h Setting.tx_rpc_url,
  h Setting.tx_grpc_url,
  h Setting.tx_sender_address,
  h Setting.tx_contract_address,
  h Setting.prometheus_url,
  h Setting.prometheus_instance_name,
  h Setting.prometheus_username,
  h Setting.prometheus_password,
  h Setting.audit_start_date,
  ap (λ z. z.0) e,
  ap (λ z. z.1) e,
)

fresh_ne : (s t : Setting) (order : List Setting) → IsFresh s order → Memᴰ t order → s ≢ t
fresh_ne s t [] f m = absurd (not_mem_nil m)
fresh_ne s t (x ∷ order) f m = elim (mem_cons-cases m) [
  | inl e ↦ λ same. f.0 (same ∙ e)
  | inr k ↦ fresh_ne s t order f.1 k
]

module _ (O : Outside) (flags : Flags) where
  -- The fields are those of the network with the values of the flags.
  pub record IsConfigured (network cfg : ServicesConfig) : Type 0 where
    pub given :
        (s : Setting) → Gives O s (flags (FlagName.setting s)) (value_of s network) (value_of s cfg)
    pub same_others : fixed network ≡ fixed cfg

  -- One setter writes its field as the flag says.
  setter_step :
      (s : Setting) (cfg cfg' : ServicesConfig)
      → setter O flags s cfg ≡ ok cfg'
      → (v : ValueOf s) × Gives O s (flags (FlagName.setting s)) (value_of s cfg) v
        × (cfg' ≡ with_value s v cfg)
  setter_step s cfg cfg' h =
      let (v, r, e) =
        >>=-eq-ok (read O flags s (value_of s cfg)) _ (sym (setter-read O flags s cfg) ∙ h) in
      (v, (read_iff O flags s (value_of s cfg) v).0 r, sym (ok_injective e))

  setter_runs :
      (s : Setting) (cfg : ServicesConfig) (v : ValueOf s)
      → Gives O s (flags (FlagName.setting s)) (value_of s cfg) v
      → setter O flags s cfg ≡ ok (with_value s v cfg)
  setter_runs s cfg v g =
      setter-read O flags s cfg
      ∙ ap (λ m. m >>= λ w. ok (with_value s w cfg)) ((read_iff O flags s (value_of s cfg) v).1 g)

  run-fixed :
      (order : List Setting) (cfg cfg' : ServicesConfig)
      → run_setters O flags order cfg ≡ ok cfg'
      → fixed cfg ≡ fixed cfg'
  unfolding run_setters
  run-fixed [] cfg cfg' h = ap fixed (ok_injective h)
  run-fixed (s ∷ order) cfg cfg' h =
      let (next, first, rest) = >>=-eq-ok (setter O flags s cfg) _ h in
      let (v, g, e) = setter_step s cfg next first in
      sym (fixed-with_value s v cfg) ∙ (sym (ap fixed e) ∙ run-fixed order next cfg' rest)

  run-fresh :
      (order : List Setting) (cfg cfg' : ServicesConfig) (t : Setting)
      → run_setters O flags order cfg ≡ ok cfg'
      → IsFresh t order
      → value_of t cfg' ≡ value_of t cfg
  unfolding run_setters
  run-fresh [] cfg cfg' t h f = ap (value_of t) (sym (ok_injective h))
  run-fresh (s ∷ order) cfg cfg' t h (ne, f) =
      let (next, first, rest) = >>=-eq-ok (setter O flags s cfg) _ h in
      let (v, g, e) = setter_step s cfg next first in
      run-fresh order next cfg' t rest f
      ∙ (ap (value_of t) e ∙ value_of-with_other s t v cfg (λ same. ne (sym same)))

  run-Gives :
      (order : List Setting) (cfg cfg' : ServicesConfig) (t : Setting)
      → run_setters O flags order cfg ≡ ok cfg'
      → IsNodup order
      → Memᴰ t order
      → Gives O t (flags (FlagName.setting t)) (value_of t cfg) (value_of t cfg')
  unfolding run_setters
  run-Gives [] cfg cfg' t h n m = absurd (not_mem_nil m)
  run-Gives (s ∷ order) cfg cfg' t h (f, n) m =
      let (next, first, rest) = >>=-eq-ok (setter O flags s cfg) _ h in
      let (v, g, e) = setter_step s cfg next first in
      elim (mem_cons-cases m) [
        | inr k ↦
            subst (λ w. Gives O t (flags (FlagName.setting t)) w (value_of t cfg'))
              (ap (value_of t) e ∙ value_of-with_other s t v cfg (fresh_ne s t order f k))
              (run-Gives order next cfg' t rest n k)
        | inl same ↦
            subst (λ u. Gives O u (flags (FlagName.setting u)) (value_of u cfg) (value_of u cfg'))
              (sym same)
              (subst (Gives O s (flags (FlagName.setting s)) (value_of s cfg))
                (sym (
                  run-fresh order next cfg' s rest f
                  ∙ (ap (value_of s) e ∙ value_of-with_value s v cfg)))
                g)
      ]

  run_ends :
      (order : List Setting) (cfg network wanted : ServicesConfig)
      → IsNodup order
      → ((s : Setting)
          → Gives O s (flags (FlagName.setting s)) (value_of s network) (value_of s wanted))
      → ((s : Setting) → Memᴰ s order → value_of s cfg ≡ value_of s network)
      → (cfg' : ServicesConfig) × (run_setters O flags order cfg ≡ ok cfg')
  unfolding run_setters
  run_ends [] cfg network wanted n g same = (cfg, refl)
  run_ends (s ∷ order) cfg network wanted (f, n) g same =
      let v = value_of s wanted in
      let given =
        subst (λ w. Gives O s (flags (FlagName.setting s)) w v) (sym (same s (Memᴰ.head refl)))
          (g s) in
      let (cfg', rest) =
        run_ends order (with_value s v cfg) network wanted n g
          (λ t m. value_of-with_other s t v cfg (fresh_ne s t order f m) ∙ same t (Memᴰ.tail m)) in
      (cfg', ap (λ m. m >>= λ c. run_setters O flags order c) (setter_runs s cfg v given) ∙ rest)

  Gives-same :
      (s : Setting) (old new other : ValueOf s)
      → Gives O s (flags (FlagName.setting s)) old new
      → Gives O s (flags (FlagName.setting s)) old other
      → new ≡ other
  Gives-same s old new other g h =
      ok_injective (sym ((read_iff O flags s old new).1 g) ∙ (read_iff O flags s old other).1 h)

  -- The setters, from the configuration of a network, make exactly the configured one.
  run_iff :
      (order : List Setting) (network cfg : ServicesConfig)
      → IsOrder order
      → (run_setters O flags order network ≡ ok cfg) ↔ IsConfigured network cfg
  run_iff order network cfg (n, full) = (
    λ h. record {
      given = λ s. run-Gives order network cfg s h n (full s);
      same_others = run-fixed order network cfg h;
    },
    λ c.
        let (cfg', h) = run_ends order network network cfg n c.given (λ s m. refl) in
        h
        ∙ ap ok (
            same_config cfg' cfg
              (λ s. Gives-same s _ _ _ (run-Gives order network cfg' s h n (full s)) (c.given s))
              (sym (run-fixed order network cfg' h) ∙ c.same_others)),
  )

  -- Whatever the order in which Go iterates over the map of setters, `readServicesConfig` returns a
  -- configuration exactly when the flag of the chain id names a known network and the configuration
  -- is that network's with each field replaced by the value of its flag, where the flag is declared
  -- and neither empty nor zero. So the order matters neither for the result nor for whether there
  -- is an error.
  pub read_any_order :
      (order : List Setting) (cfg : ServicesConfig)
      → IsOrder order
      → (read_services_config O flags order ≡ ok cfg) ↔ (
          (chain_id : Str) × (network : ServicesConfig) × (get_string flags FlagName.tx_chain_id
            ≡ ok chain_id)
          × (default_cfg O chain_id ≡ ok network)
          × IsConfigured network cfg)
  unfolding read_services_config
  read_any_order order cfg o = (
    λ h.
        let (chain_id, named, h') = >>=-eq-ok (get_string flags FlagName.tx_chain_id) _ h in
        let (network, known, ran) = >>=-eq-ok (default_cfg O chain_id) _ h' in
        (chain_id, network, named, known, (run_iff order network cfg o).0 ran),
    λ (chain_id, network, named, known, c).
        ap (λ m. m >>= λ id. default_cfg O id >>= λ n. run_setters O flags order n) named
        ∙ (ap (λ m. m >>= λ n. run_setters O flags order n) known
            ∙ (run_iff order network cfg o).1 c),
  )
