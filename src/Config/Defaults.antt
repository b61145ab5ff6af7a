-- ===== src/Config/Defaults.antt =====
-- `applyDefaults` and `Parse` of internal/config/config.go.
use kigeon.Prelude.{◌≡◌, ◌*◌, ◌^◌, String, false, arith, ◌==◌, if◌then◌else◌, ℕ, ℤ, pos, []}
use kigeon.Errors.{Result, ok, wrap_err, ◌>>=◌}
use kigeon.Config.{Config, GlobalConfig, QueueConfig, is_zero}

abbrev pub hours : ℕ → ℤ
hours n = pos (n * 3600 * 1000000000)

abbrev pub minutes : ℕ → ℤ
minutes n = pos (n * 60 * 1000000000)

abbrev pub seconds : ℕ → ℤ
seconds n = pos (n * 1000000000)

-- 500Mi
abbrev pub default_events_max_bytes : ℤ
default_events_max_bytes = pos (500 * 2 ^ 20)

-- the value of a field, or the default if it is not set
unfoldable pub text_or : String → String → String
text_or default s = if s == "" then default else s

unfoldable pub number_or : ℤ → ℤ → ℤ
number_or default n = if is_zero n then default else n

unfoldable pub default_global : GlobalConfig → GlobalConfig
unfolding text_or
default_global g = record {
  data_dir = text_or "/var/lib/kigeon/data" g.data_dir;
  log_level = text_or "info" g.log_level;
  log_format = text_or "json" g.log_format;
  metrics_bind_address = text_or ":8080" g.metrics_bind_address;
}

unfoldable pub default_queue : QueueConfig → QueueConfig
unfolding number_or
default_queue q = record {
  events_max_age = number_or (hours 24) q.events_max_age;
  events_max_bytes = number_or default_events_max_bytes q.events_max_bytes;
  kubernetes_events_max_lifetime = number_or (hours 1) q.kubernetes_events_max_lifetime;
}

-- `applyDefaults`
unfoldable pub apply_defaults : Config → Config
unfolding default_global default_queue number_or
apply_defaults c = record c {
  global = default_global c.global;
  queue = default_queue c.queue;
  pods = record c.pods {
    deleted_pod_retention = number_or (minutes 5) c.pods.deleted_pod_retention;
  };
  pusher = record { push_timeout = number_or (seconds 5) c.pusher.push_timeout };
}

-- `Load` and `Parse`; `read_file` and `unmarshal` are those of os and sigs.k8s.io/yaml
unfoldable pub parse : {Raw : Type 0} → (Raw → Result Config) → Raw → Result Config
unfolding apply_defaults
parse unmarshal raw = do
  config ← wrap_err "failed to parse config: %w" [] (unmarshal raw)
  ok (apply_defaults config)

unfoldable pub load :
    {Raw : Type 0} → (String → Result Raw) → (Raw → Result Config) → String → Result Config
unfolding parse
load read_file unmarshal path = do
  raw ← wrap_err "failed to read config file: %w" [] (read_file path)
  parse unmarshal raw

text_or-text_or : (d s : String) → (d == "") ≡ false → text_or d (text_or d s) ≡ text_or d s
unfolding text_or
text_or-text_or d s h = ground arith

number_or-number_or : (d n : ℤ) → number_or d (number_or d n) ≡ number_or d n
unfolding number_or
number_or-number_or d n = ground arith

-- Applying the defaults a second time changes nothing.
apply_defaults_idem : (c : Config) → apply_defaults (apply_defaults c) ≡ apply_defaults c
unfolding apply_defaults
apply_defaults_idem c = simp (text_or-text_or, number_or-number_or)
