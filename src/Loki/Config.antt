-- ===== src/Loki/Config.antt =====
-- internal/eventsender/loki/config.go and `parseConfig` of factory.go. Reading the configuration
-- from JSON and reading the environment are arguments.
use kigeon.Prelude.{
  ℕ, String, Bool, ◌&&◌, ◌||◌, not, Option, none, some, [], ◌∷◌, Map, ◌==◌, if◌then◌else◌,
}
use kigeon.Errors.{Error, errorf, Result, ok, err, wrap_err, wrap, ◌>>=◌}

pub record TlsConfig : Type 0 where
  pub insecure_skip_verify : Bool

pub record ConfigHook : Type 0 where
  pub script : String
  -- a `time.Duration`, in nanoseconds; a negative one is not modelled
  pub timeout : ℕ
  pub on_error : String
  pub enrich_pod : Bool
  pub skip_on_pod_not_found : Bool

pub record BasicAuth : Type 0 where
  pub username : String
  pub password : String
  pub username_env_var : String
  pub password_env_var : String

pub record Config : Type 0 where
  pub url : String
  pub tenant_id : String
  pub basic_auth : Option BasicAuth
  pub tls : Option TlsConfig
  pub stream_labels : Map String
  pub message : String
  pub hook : Option ConfigHook

-- `(*ConfigHook).validate`
unfoldable pub validate : ConfigHook → Option Error
validate h =
    if h.script == ""
    then some (errorf "hook script path is required" [])
    else if h.on_error == ""
        || h.on_error == "use-default"
        || h.on_error == "skip"
        || h.on_error == "fail"
    then none
    else some (
        errorf "invalid hook onError value %q, must be one of: use-default, skip, fail"
          (h.on_error ∷ []))

-- a direct value, or else the variable that is named for it
unfoldable pub resolve : (String → String) → String → String → String
resolve getenv direct variable =
    if direct == "" && not (variable == "") then getenv variable else direct

unfoldable pub resolve_auth : (String → String) → BasicAuth → BasicAuth
unfolding resolve
resolve_auth getenv a = record a {
  username = resolve getenv a.username a.username_env_var;
  password = resolve getenv a.password a.password_env_var;
}

-- `(*Config).resolveEnvVars`
unfoldable pub resolve_env_vars : (String → String) → Config → Config
unfolding resolve_auth
resolve_env_vars getenv c = elim c.basic_auth [
  | none ↦ c
  | some a ↦ record c { basic_auth = some (resolve_auth getenv a) }
]

-- the last part of `parseConfig`
unfoldable pub check_hook : Config → Option ConfigHook → Result Config
unfolding validate
check_hook c none = ok c
check_hook c (some h) = elim (validate h) [
  | none ↦ ok c
  | some e ↦ err (wrap "invalid hook configuration: %w" [] e)
]

-- `parseConfig`; `unmarshal` is `json.Unmarshal` into a `Config`
unfoldable pub parse_config :
    {Raw : Type 0} → (Raw → Result Config) → (String → String) → Raw → Result Config
unfolding resolve_env_vars check_hook
parse_config unmarshal getenv raw = do
  config ← wrap_err "invalid loki configuration: %w" [] (unmarshal raw)
  let resolved = resolve_env_vars getenv config
  check_hook resolved resolved.hook
