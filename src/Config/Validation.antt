-- ===== src/Config/Validation.antt =====
-- `Validate` of internal/config/validation.go. A message is kept as its format and its arguments.
use kigeon.Prelude.{
  ℕ, suc, String, Bool, true, false, not, ◌&&◌, Option, none, some, List, [], ◌∷◌, ◌++◌, ◌==◌,
  if◌then◌else◌, contains, concat, format_nat,
}
use kigeon.Config.{Config, GlobalConfig, QueueConfig, EventSenderConfig, FilterConfig, is_negative}

pub record ValidationError : Type 0 where
  pub field : String
  pub message : String
  pub arguments : List String

-- the error of one check, if it fails
abbrev pub report : Bool → String → String → List String → List ValidationError
report true field message arguments =
    record { field = field; message = message; arguments = arguments } ∷ []
report false field message arguments = []

abbrev pub log_levels : List String
log_levels = "debug" ∷ "info" ∷ "warn" ∷ "error" ∷ []

abbrev pub log_formats : List String
log_formats = "json" ∷ "text" ∷ []

-- `validateGlobal`
unfoldable pub validate_global : GlobalConfig → List ValidationError
validate_global g =
    report (g.data_dir == "") "global.dataDir" "data directory is required" []
    ++ (report (not (g.log_level == "") && not (contains log_levels g.log_level)) "global.logLevel"
          "invalid log level %q, must be one of: debug, info, warn, error" (g.log_level ∷ [])
        ++ report (not (g.log_format == "") && not (contains log_formats g.log_format))
            "global.logFormat" "invalid log format %q, must be one of: json, text"
            (g.log_format ∷ []))

-- `validateQueue`
unfoldable pub validate_queue : QueueConfig → List ValidationError
validate_queue q =
    report (is_negative q.events_max_age) "queue.eventsMaxAge" "events max age cannot be negative"
      []
    ++ report (is_negative q.events_max_bytes) "queue.eventsMaxBytes"
        "events max bytes cannot be negative" []

-- `validateFilter`
unfoldable pub validate_filter : String → Option FilterConfig → List ValidationError
validate_filter prefix none = []
validate_filter prefix (some f) =
    report (is_negative f.hard_refresh_interval) (concat (prefix ∷ ".hardRefreshInterval" ∷ []))
      "hard refresh interval cannot be negative" []

-- the check of a sender's name against the names that stand before it
unfoldable pub validate_name : List String → String → String → List ValidationError
validate_name names prefix name =
    if name == ""
    then report true (concat (prefix ∷ ".name" ∷ [])) "sender name is required" []
    else report (contains names name) (concat (prefix ∷ ".name" ∷ [])) "duplicate sender name %q"
        (name ∷ [])

-- the names after a sender: `names[sender.Name] = true` on the last branch only
unfoldable pub add_name : List String → String → List String
add_name names name =
    if name == "" then names else if contains names name then names else name ∷ names

-- the loop of `validateEventSenders`, from the sender at index `i` on
unfoldable pub validate_each : List String → ℕ → List EventSenderConfig → List ValidationError
unfolding validate_name add_name validate_filter format_nat
validate_each names i [] = []
validate_each names i (sender ∷ senders) =
    let prefix = concat ("eventsenders[" ∷ format_nat i ∷ "]" ∷ []) in
    validate_name names prefix sender.name
    ++ (report (sender.type == "") (concat (prefix ∷ ".type" ∷ [])) "sender type is required" []
        ++ (validate_filter (concat (prefix ∷ ".filter" ∷ [])) sender.filter
            ++ validate_each (add_name names sender.name) (suc i) senders))

-- `validateEventSenders`
unfoldable pub validate_event_senders : List EventSenderConfig → List ValidationError
unfolding validate_each
validate_event_senders [] =
    report true "eventsenders" "at least one event sender must be configured" []
validate_event_senders (sender ∷ senders) = validate_each [] 0 (sender ∷ senders)

-- `Validate`: no error is the empty list
unfoldable pub validate : Config → List ValidationError
unfolding validate_global validate_queue validate_event_senders
validate c =
    validate_global c.global
    ++ (validate_queue c.queue
        ++ (report (is_negative c.pods.deleted_pod_retention) "pods.deletedPodRetention"
              "deleted pod retention cannot be negative" []
            ++ validate_event_senders c.event_senders))
