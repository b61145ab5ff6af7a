-- ===== src/Tests/Starting.antt =====
-- Starting with a configuration file that sets little, where the file system and NATS do not fail.
use kigeon.Prelude.{
  false, none, some, ◌∷◌, ◌⊎◌, is_some, if◌then◌else◌, ◌==◌, ℕ, suc, ◌+◌, ◌^◌, ◌<◌, ◌≡◌, refl, true,
  [], pos, count,
}
use kigeon.Errors.{ok, wrap_err, errorf}
use kigeon.Config.{Config}
use kigeon.Config.Defaults.{load, apply_defaults}
use kigeon.Config.Validation.{validate}
use kigeon.EventQueue.Start.{
  Nats, launch, stream_config, server_options, key_value_config, start_event_queue,
}
use kigeon.Main.{configure, options_of, start_queue, override}
use kigeon.Main.Limits.{configure-start_queue}
use kigeon.Main.Startup.{
  Parts, run, metrics_started, queue_started, subscribed, sender_tracked, sender_started, pruned,
  pods_started, pusher_started, oom_watched, ready, sender_stopped, pods_stopped, pusher_stopped,
  queue_stopped, metrics_stopped, sender_names,
}
use kigeon.Main.Startup.Subscribing.{subscribed_before_pusher}
use kigeon.Main.Startup.Order.{run_order}
use kigeon.Main.Startup.Tracking.{a_sender, starts, stops}
use kigeon.Main.Startup.Stopping.{run-stops}
use kigeon.Main.Process.{setup_logger, text_handler, debug, exit_status}
use kigeon.Tests.Config.{unset}

abbrev reliable : Nats ℕ ℕ ℕ ℕ ℕ ℕ
reliable = record {
  mkdir_all = λ path. ok tt;
  new_server = λ options. ok 1;
  connect = λ server. ok 2;
  new_jet_stream = λ connection. ok 3;
  create_stream = λ js config. ok 4;
  create_key_value = λ js config. ok 5;
  create_consumer = λ stream config. ok 6;
}

-- what the file gives
abbrev file : Config
file = record (unset "a" "b") {
  pods = record { oom_killed_events = true; deleted_pod_retention = pos 0 };
}

abbrev in_use : Config
in_use = override "debug" "" (apply_defaults file)

configured : configure (λ path. ok path) (λ raw. ok file) "kigeon.yaml" "debug" "" ≡ ok in_use
unfolding configure load validate
configured = refl

started :
    start_queue reliable in_use
    ≡ ok (record {
      server = 1;
      connection = 2;
      jet_stream_client = 3;
      jet_stream_stream = 4;
      key_value = 5;
    })
unfolding start_queue start_event_queue override apply_defaults
started = refl

configure-start_queue_example :
    (m : ℕ) × (start_queue reliable in_use
      ≡ wrap_err "failed to start event queue: %w" []
          (launch reliable in_use.global.data_dir (options_of in_use) (suc m)))
    × ((stream_config (options_of in_use) (suc m)).max_bytes ≡ in_use.queue.events_max_bytes)
    × (suc m + (key_value_config (options_of in_use)).max_bytes < 2 ^ 63
        → (server_options in_use.global.data_dir (options_of in_use) (suc m)).jet_stream_max_store
          ≡ pos (suc m + (key_value_config (options_of in_use)).max_bytes))
configure-start_queue_example =
    configure-start_queue reliable (λ path. ok path) (λ raw. ok file) "kigeon.yaml" "debug" ""
      in_use configured

abbrev sound_parts : Parts
sound_parts = record {
  kubernetes_client = none;
  metrics_server = none;
  event_queue = none;
  register_metrics = none;
  selector = λ s. none;
  start_filter = λ name. none;
  subscribe = λ name. none;
  create = λ s. none;
  enables_pods = λ s. false;
  prune = λ names. none;
  start_pods = none;
  wait_for_pusher = none;
  watch_oom = none;
}

-- the second sender cannot subscribe
abbrev broken_parts : Parts
broken_parts = record sound_parts {
  subscribe = λ name. if name == "b" then some (errorf "no stream" []) else none;
}

whole_run :
    (run sound_parts in_use).0
    ≡ metrics_started
      ∷ queue_started
      ∷ subscribed "a"
      ∷ sender_tracked "a"
      ∷ sender_started "a"
      ∷ subscribed "b"
      ∷ sender_tracked "b"
      ∷ sender_started "b"
      ∷ pruned ("a" ∷ "b" ∷ [])
      ∷ pods_started
      ∷ pusher_started
      ∷ oom_watched
      ∷ ready
      ∷ sender_stopped "a"
      ∷ sender_stopped "b"
      ∷ pods_stopped
      ∷ pusher_stopped
      ∷ queue_stopped
      ∷ metrics_stopped
      ∷ []
unfolding run override apply_defaults
whole_run = refl

run_order_example :
    ((subscribed_before_pusher (run broken_parts in_use).0 ≡ none)
      × (is_some (run broken_parts in_use).1 ≡ true))
    ⊎ (subscribed_before_pusher (run broken_parts in_use).0
        ≡ some (sender_names in_use.event_senders))
run_order_example = run_order broken_parts in_use

setup_runs : setup_logger in_use.global.log_level in_use.global.log_format ≡ text_handler debug
unfolding setup_logger override apply_defaults
setup_runs = refl

run_ends : (run sound_parts in_use).1 ≡ none
unfolding run override apply_defaults
run_ends = refl

run-stops_example :
    count (starts a_sender "b") (run sound_parts in_use).0
    ≡ count (stops a_sender "b") (run sound_parts in_use).0
run-stops_example = run-stops a_sender "b" sound_parts in_use run_ends

no_config_flag : exit_status "" none ≡ 1
unfolding exit_status
no_config_flag = refl
