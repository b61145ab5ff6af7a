-- ===== src/Loki/Factory.antt =====
-- How a Loki sender is made: Factory of internal/eventsender/loki/factory.go and NewSender of loki.go.
pub mod Enrichment
use kigeon.Prelude.{
  String, Bool, false, Option, none, some, [], ◌==◌, if◌then◌else◌, is_some, ℕ, ◌*◌,
}
use kigeon.Errors.{errorf, Result, ok, err, wrap_err, ◌>>=◌}
use kigeon.Pods.Informer.{Informer, enable}
use kigeon.Loki.Config.{Config, ConfigHook, parse_config}
use kigeon.Loki.Hook.{HookRuntime, HookExecutor, PodGetter, new_hook_executor}
use kigeon.Loki.Sender.{Sender}

-- `SenderOptions`, less the logger and the HTTP client
pub record SenderOptions : Type 0 where
  pub pods : Option PodGetter
  pub noop : Bool

-- `FactoryOptions`: the pod informer, if there is one, with its method `GetPod`
pub record FactoryOptions (D N : Type 0) : Type 0 where
  pub pods : Option (Informer D N)
  pub get_pod : PodGetter
  pub noop : Bool

-- the hook of a sender, if one is configured
unfoldable pub make_hook :
    HookRuntime → Option ConfigHook → Option PodGetter → Result (Option HookExecutor)
unfolding new_hook_executor
make_hook rt none pods = ok none
make_hook rt (some hook) pods = do
  h ← wrap_err "initializing config hook: %w" [] (new_hook_executor rt hook pods)
  ok (some h)

-- `NewSender`; a fetcher that is nil is `false`
unfoldable pub new_sender : HookRuntime → String → Config → Bool → SenderOptions → Result Sender
unfolding make_hook
new_sender rt name config has_fetcher options =
    if name == ""
    then err (errorf "sender name is required" [])
    else if config.url == ""
    then err (errorf "loki URL is required" [])
    else if has_fetcher
    then (do
      hook ← make_hook rt config.hook options.pods
      ok (record { config = config; hook = hook; noop = options.noop }))
    else err (errorf "eventFetcher is required" [])

-- `config.Hook != nil && config.Hook.EnrichPod`
unfoldable pub wants_pods : Option ConfigHook → Bool
wants_pods none = false
wants_pods (some hook) = hook.enrich_pod

module _ {D N : Type 0} where
  -- the options of the sender, and the informer, which is enabled if the sender gets pods
  unfoldable pub options_with :
      Config → FactoryOptions D N → Option (Informer D N) → SenderOptions × Option (Informer D N)
  unfolding wants_pods enable
  options_with config opts none = (record { pods = none; noop = opts.noop }, none)
  options_with config opts (some informer) =
      if wants_pods config.hook
      then (record { pods = some opts.get_pod; noop = opts.noop }, some (enable informer))
      else (record { pods = none; noop = opts.noop }, some informer)

  unfoldable pub sender_options :
      Config → FactoryOptions D N → SenderOptions × Option (Informer D N)
  unfolding options_with
  sender_options config opts = options_with config opts opts.pods

  -- `Factory` once the configuration is parsed
  unfoldable pub make_sender :
      HookRuntime
      → String
      → Bool
      → FactoryOptions D N
      → Result Config
      → Result Sender × Option (Informer D N)
  unfolding new_sender sender_options
  make_sender rt name has_fetcher opts (err e) = (err e, opts.pods)
  make_sender rt name has_fetcher opts (ok config) = (
    new_sender rt name config has_fetcher (sender_options config opts).0,
    (sender_options config opts).1,
  )

  -- `Factory`: the sender or an error, and the informer that it leaves
  unfoldable pub factory :
      {Raw : Type 0}
      → HookRuntime
      → (Raw → Result Config)
      → (String → String)
      → String
      → Raw
      → Bool
      → FactoryOptions D N
      → Result Sender × Option (Informer D N)
  unfolding make_sender
  factory rt unmarshal getenv name raw has_fetcher opts =
      make_sender rt name has_fetcher opts
        (wrap_err "failed to parse loki config: %w" [] (parse_config unmarshal getenv raw))
