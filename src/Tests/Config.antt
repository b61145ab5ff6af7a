-- ===== src/Tests/Config.antt =====
-- internal/config at concrete configurations.
use kigeon.Prelude.{◌≡◌, ◌↔◌, refl, String, true, false, none, some, List, [], ◌∷◌, pos, negsuc}
use kigeon.Config.{Config, EventSenderConfig}
use kigeon.Config.Defaults.{apply_defaults}
use kigeon.Config.Validation.{ValidationError, validate}
use kigeon.Config.WellFormed.{is_well_formed, validate_iff}

abbrev sender : String → EventSenderConfig
sender name = record {
  name = name;
  type = "loki";
  noop = false;
  filter = some (record {
    namespace_selector = none;
    include_non_namespaced = true;
    hard_refresh_interval = pos 0;
  });
  config = "{}";
}

-- what an empty file with two senders gives
abbrev pub unset : String → String → Config
unset first second = record {
  global = record { data_dir = ""; log_level = ""; log_format = "text"; metrics_bind_address = "" };
  queue = record {
    events_max_age = pos 0;
    events_max_bytes = pos 0;
    kubernetes_events_max_lifetime = pos 0;
  };
  pusher = record { push_timeout = pos 0 };
  pods = record { oom_killed_events = true; deleted_pod_retention = negsuc 0 };
  event_senders = sender first ∷ sender second ∷ [];
}

abbrev fields : List ValidationError → List String
fields [] = []
fields (e ∷ l) = e.field ∷ fields l

duplicates_are_reported :
    fields (validate (unset "a" "a"))
    ≡ "global.dataDir" ∷ "pods.deletedPodRetention" ∷ "eventsenders[1].name" ∷ []
unfolding validate
duplicates_are_reported = refl

defaults_fill_in : (apply_defaults (unset "a" "b")).queue.events_max_bytes ≡ pos 524288000
unfolding apply_defaults
defaults_fill_in = refl

validate_iff_example : (validate (unset "a" "a") ≡ []) ↔ (is_well_formed (unset "a" "a") ≡ true)
validate_iff_example = validate_iff (unset "a" "a")
