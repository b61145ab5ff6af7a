-- ===== src/Main.antt =====
-- run of cmd/kigeon/main.go up to the start of the queue: the configuration with the command line's
-- flags, and what the queue is started with.
pub mod Accepted
pub mod Limits
pub mod Process
pub mod Startup
pub mod Readiness
use kigeon.Prelude.{String, Bool, false, Option, some, List, [], ◌∷◌, ◌++◌, ◌==◌, if◌then◌else◌}
use kigeon.Errors.{errorf, Result, ok, err, wrap_err, ◌>>=◌}
use kigeon.Config.{Config}
use kigeon.Config.Defaults.{load}
use kigeon.Config.Validation.{ValidationError, validate}
use kigeon.EventQueue.Start.{Options, Nats, EventQueue, start_event_queue}

-- the log level and the address, if flags give them
unfoldable pub override : String → String → Config → Config
override log_level address c = record c {
  global = record c.global {
    log_level = if log_level == "" then c.global.log_level else log_level;
    metrics_bind_address = if address == "" then c.global.metrics_bind_address else address;
  };
}

-- the texts of errors in the order in which `ValidationErrors` joins them
unfoldable pub texts : List ValidationError → List String
texts [] = []
texts (e ∷ errors) = e.field ∷ e.message ∷ (e.arguments ++ texts errors)

unfoldable pub accept : Config → List ValidationError → Result Config
unfolding texts
accept c [] = ok c
accept c (e ∷ errors) = err (errorf "config validation failed: %w" (texts (e ∷ errors)))

-- the configuration that `run` goes on with
unfoldable pub configure :
    {Raw : Type 0}
    → (String → Result Raw)
    → (Raw → Result Config)
    → String
    → String
    → String
    → Result Config
unfolding override accept
configure read_file unmarshal path log_level address = do
  c ← wrap_err "failed to load config: %w" [] (load read_file unmarshal path)
  accept (override log_level address c) (validate (override log_level address c))

-- the options that `run` makes of the configuration
unfoldable pub options_of : Config → Options
options_of c = record {
  debug = false;
  events_max_age = c.queue.events_max_age;
  events_max_bytes = c.queue.events_max_bytes;
  kubernetes_events_max_lifetime = some c.queue.kubernetes_events_max_lifetime;
}

-- the start of the queue in `run`
unfoldable pub start_queue :
    {Server Connection JetStream Stream KeyValue Consumer : Type 0}
    → Nats Server Connection JetStream Stream KeyValue Consumer
    → Config
    → Result (EventQueue Server Connection JetStream Stream KeyValue)
unfolding options_of
start_queue nats c =
    wrap_err "failed to start event queue: %w" []
      (start_event_queue nats c.global.data_dir (options_of c))
