-- ===== src/Main/Readiness.antt =====
-- The readiness check of internal/metrics/server.go while run of cmd/kigeon/main.go starts and stops the
-- parts.
use kigeon.Prelude.{◌≡◌, ℕ, String, Bool, true, false, Option, none, some, List, [], ◌∷◌, All}
use kigeon.Config.{Config}
use kigeon.Metrics.Server.{Server, set_ready, status}
use kigeon.Main.Startup.{Action, metrics_started, metrics_stopped, ready, Steps}

-- the metrics server, if it runs, after an action of `run`; it listens on `addr`
unfoldable pub serve_step : String → Option Server → Action → Option Server
serve_step addr server metrics_started = some (record { addr = addr; ready = false })
serve_step addr server metrics_stopped = none
serve_step addr none ready = none
serve_step addr (some s) ready = some (set_ready s)
serve_step addr server _ = server

unfoldable pub server_after : String → Option Server → List Action → Option Server
unfolding serve_step
server_after addr server [] = server
server_after addr server (a ∷ actions) = server_after addr (serve_step addr server a) actions

-- what a client that asks for `/readyz` after these actions of `run` is answered, if it can connect
unfoldable pub readyz_after : String → ℕ → List Action → Option ℕ
unfolding server_after status
readyz_after addr gathered actions = elim (server_after addr none actions) [
  | none ↦ none
  | some s ↦ some (status gathered s "/readyz")
]

abbrev pub is_ready : Action → Bool
is_ready ready = true
is_ready _ = false

-- Steps that do not set the server ready.
record IsQuiet (s : Steps) : Type 0 where
  quiet : All (λ a. is_ready a ≡ false) s.0

abbrev is_serving_ready : Option Server → Bool
is_serving_ready none = false
is_serving_ready (some s) = s.ready
