-- ===== src/Metrics/Server.antt =====
-- internal/metrics/server.go: the HTTP server with the metrics and the two checks. A path is taken as
-- the client of the check sends it: one that is not clean is redirected by net/http.
use kigeon.Prelude.{
  ℕ, String, Bool, true, false, not, Option, none, some, List, [], ◌∷◌, if◌then◌else◌, ◌==◌,
}
use kigeon.Errors.{Error, is, server_closed, Result, wrap_err, ◌>>=◌, ok}

-- `Server`, less the HTTP server and the logger
pub record Server : Type 0 where
  pub addr : String
  pub ready : Bool

-- `NewServer`, where `listen` is `net.Listen` and gives the address of the listener
unfoldable pub new_server : (String → Result String) → String → Result Server
new_server listen addr = do
  listening ← wrap_err "failed to listen on %s: %w" (addr ∷ []) (listen addr)
  ok (record { addr = listening; ready = false })

-- `SetReady`
abbrev pub set_ready : Server → Server
set_ready s = record s { ready = true }

-- the status that the server answers for a path; `gathered` is that of the handler of promhttp
unfoldable pub status : ℕ → Server → String → ℕ
status gathered s path =
    if path == "/metrics"
    then gathered
    else if path == "/healthz"
    then 200
    else if path == "/readyz"
    then (if not s.ready then 503 else 200)
    else 404

-- `Serve` logs the error of the HTTP server unless it was shut down
unfoldable pub serve : Option Error → List Error
unfolding is
serve none = []
serve (some e) = if not (is e server_closed) then e ∷ [] else []
