-- ===== src/Config/Accepted.antt =====
-- What a configuration that `Validate` of pkg/config/validator.go accepts is like.
use progo_a2a.Prelude.{
  ℕ, String, ◌≡◌, arith, Bool, true, false, not, ◌&&◌, ◌||◌, Option, some, List, [], ◌∷◌, str_eq,
  str_eq_iff, any, any-In, is_blank, ok, err, map_err, bind-ok, of_option, of_option-ok, passed,
  then-ok, map_err-ok, All, In, here, there, ◌⊎◌, inl, inr, Bool-cases, if◌then◌else◌, sym, subst,
  suc,
}
use progo_a2a.Config.{Config, ApiKeyConfig, SecurityConfig}
use progo_a2a.Config.Agents.{Url, validate_agents}
use progo_a2a.Config.Sections.{
  role_of, runs_worker, is_bad_port, validate_allowed, no_keys, empty_key, duplicate_key,
  unknown_agent, validate_keys, validate_security, backend_of, validate_storage,
}
use progo_a2a.Config.Agents.Accepted.{AcceptedAgent, validate_agents-Accepted}
use progo_a2a.Config.Cycles.{validate_fallbacks}
use progo_a2a.Config.Cycles.References.{ids_of, DistinctIds, FallsBack, Chain}
use progo_a2a.Config.Cycles.Verdict.{Verdict, validate_fallbacks-Verdict}
use progo_a2a.Config.Validator.{WorkerSetting, is_unset, validate_settings, validate_worker}
use progo_a2a.Config.Validation.{
  validate, bad_role, bad_port, bad_agent, bad_keys, bad_fallbacks, bad_storage, bad_worker,
}

allowed_known :
    (ids : List String) (i : ℕ) (allowed : List String)
    → validate_allowed ids i allowed ≡ ok tt
    → (id : String) → In id allowed
    → (id ≡ "*") ⊎ In id ids
unfolding validate_allowed
allowed_known ids i [] h id j = elim j [ ]
allowed_known ids i (a ∷ allowed) h id j =
    let (t, h1) =
      passed (not (str_eq a "*") && not (any (λ k. str_eq k a) ids)) (unknown_agent i a) _ h in
    elim j [
      | here e ↦ subst (λ k. (k ≡ "*") ⊎ In k ids) (sym e) (known t)
      | there k ↦ allowed_known ids i allowed h1 id k
    ]
  where
    known : not (str_eq a "*") && not (any (λ k. str_eq k a) ids) ≡ false → (a ≡ "*") ⊎ In a ids
    known t = elim (Bool-cases (str_eq a "*")) [
      | inl e ↦ inl ((str_eq_iff a "*").0 e)
      | inr e ↦
          let (k, i, q) = any-In (λ k. str_eq k a) ids (ground (arith, t, e)) in
          inr (subst (λ k. In k ids) ((str_eq_iff k a).0 q) i)
    ]

-- A key that is accepted: it is not blank, and what it allows is "*" or the id of an agent.
abbrev pub AcceptedKey : List String → ApiKeyConfig → Type 0
AcceptedKey ids k =
    (is_blank k.key ≡ false) × ((id : String) → In id k.allowed_agents → (id ≡ "*") ⊎ In id ids)

keys_accepted :
    (ids : List String) (i : ℕ) (keys : List ApiKeyConfig) (seen : List String)
    → validate_keys ids i keys seen ≡ ok tt
    → All (AcceptedKey ids) keys
unfolding validate_keys
keys_accepted ids i [] seen h = tt
keys_accepted ids i (k ∷ keys) seen h =
    let (b, h1) = passed (is_blank k.key) (empty_key i) _ h in
    let (_, h2) = passed (any (λ other. str_eq other k.key) seen) (duplicate_key i) _ h1 in
    let (a, h3) = then-ok (validate_allowed ids i k.allowed_agents) _ h2 in
    ((b, allowed_known ids i k.allowed_agents a), keys_accepted ids (suc i) keys (k.key ∷ seen) h3)

security_accepted :
    (ids : List String) (s : SecurityConfig)
    → validate_security ids s ≡ ok tt
    → s.enabled ≡ true
    → ¬ (s.api_keys ≡ []) × All (AcceptedKey ids) s.api_keys
unfolding validate_security
security_accepted ids s h e = by_keys s.api_keys (rw e at h)
  where
    by_keys :
        (keys : List ApiKeyConfig)
        → elim keys [ [] ↦ err no_keys | k ∷ keys ↦ validate_keys ids 0 (k ∷ keys) [] ] ≡ ok tt
        → ¬ (keys ≡ []) × All (AcceptedKey ids) keys
    by_keys [] h = absurd (cc h)
    by_keys (k ∷ keys) h = (λ q. cc q, keys_accepted ids 0 (k ∷ keys) [] h)

-- A configuration that is accepted.
pub record Accepted (cfg : Config) : Type 0 where
  pub distinct : DistinctIds cfg.agents
  pub each : All AcceptedAgent cfg.agents
  pub fallbacks : (a b : String) → FallsBack cfg.agents a b → In b (ids_of cfg.agents)
  pub acyclic : (a : String) → ¬ Chain cfg.agents a a
  pub secured :
      cfg.security.enabled ≡ true
      → ¬ (cfg.security.api_keys ≡ []) × All (AcceptedKey (ids_of cfg.agents)) cfg.security.api_keys
  pub durable :
      runs_worker cfg.role ≡ true
      → (backend_of cfg.storage ≡ "postgres") × (validate_settings cfg.worker ≡ ok tt)

-- A role that runs a worker is not the default.
role-same :
    (given role : String) → role_of given ≡ some role → runs_worker given ≡ true → role ≡ given
unfolding role_of
role-same String.[] role r w = absurd (cc w)
role-same (String.◌∷◌ c s) role r w = ground (arith, r, w)

taken :
    {A : Type 0} (t u : Bool) (x y : A) {z : A} → t ≡ true → (if t || u then x else y) ≡ z → x ≡ z
taken true u x y e h = h
taken false u x y e h = absurd (cc e)

worker_accepted :
    (role : String) (cfg : Config)
    → role_of cfg.role ≡ some role
    → validate_worker (runs_worker role) (backend_of cfg.storage) cfg.worker ≡ ok tt
    → runs_worker cfg.role ≡ true
    → (backend_of cfg.storage ≡ "postgres") × (validate_settings cfg.worker ≡ ok tt)
unfolding validate_worker
worker_accepted role cfg r h w =
    let runs : runs_worker role ≡ true = rw (role-same cfg.role role r w) w in
    let (b, h1) =
      passed (runs_worker role && not (str_eq (backend_of cfg.storage) "postgres"))
        WorkerSetting.storage_backend
        (if runs_worker role || not (is_unset cfg.worker)
          then validate_settings cfg.worker
          else ok tt)
        h in
    (
      (str_eq_iff (backend_of cfg.storage) "postgres").0 (ground (arith, b, runs)),
      taken (runs_worker role) (not (is_unset cfg.worker)) _ _ runs h1,
    )

-- A configuration that `Validate` accepts has agents of distinct ids, each with 0 to 10 retries and a custom one
-- with a mapping; its fallback lists name agents only and no chain of fallbacks is a cycle; if security is enabled
-- there are keys, none blank, which allow "*" or ids of agents; and if it runs a worker, its storage is PostgreSQL
-- and the worker's settings pass their checks.
pub validate-Accepted :
    (parse : String → Option Url) (cfg : Config) → validate parse cfg ≡ ok tt → Accepted cfg
unfolding validate
validate-Accepted parse cfg h =
    let (role, r, h1) = bind-ok (of_option bad_role (role_of cfg.role)) _ h in
    let (_, h2) = passed (is_bad_port role cfg.server.port) bad_port _ h1 in
    let (ids, a, h3) = bind-ok (map_err bad_agent (validate_agents parse cfg.agents [])) _ h2 in
    let (k, h4) = then-ok (map_err bad_keys (validate_security ids cfg.security)) _ h3 in
    let (f, h5) = then-ok (map_err bad_fallbacks (validate_fallbacks ids cfg.agents)) _ h4 in
    let (s, h6) =
      then-ok (map_err bad_storage (validate_storage cfg.storage))
        (map_err bad_worker
          (validate_worker (runs_worker role) (backend_of cfg.storage) cfg.worker))
        h5 in
    let agents = validate_agents-Accepted parse cfg.agents [] (map_err-ok bad_agent _ a) in
    let passes : validate_fallbacks (ids_of cfg.agents) cfg.agents ≡ ok tt =
      rw (← agents.collected) (map_err-ok bad_fallbacks _ f) in
    let verdict : Verdict cfg.agents (ok tt) =
      subst (Verdict cfg.agents) passes (validate_fallbacks-Verdict cfg.agents agents.distinct) in
    record {
      distinct = agents.distinct;
      each = agents.each;
      fallbacks = verdict.0;
      acyclic = verdict.1;
      secured = λ e.
          rw (← agents.collected) (security_accepted ids cfg.security (map_err-ok bad_keys _ k) e);
      durable = worker_accepted role cfg (of_option-ok bad_role _ r) (map_err-ok bad_worker _ h6);
    }
