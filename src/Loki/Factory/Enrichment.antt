-- ===== src/Loki/Factory/Enrichment.antt =====
-- A sender of internal/eventsender/loki/factory.go that enriches events with pods has enabled the
-- pod informer.
use kigeon.Prelude.{
  ◌≡◌, refl, subst, sym, ap, ◌∙◌, String, Bool, true, false, ◌&&◌, ◌==◌, Option, none, some, [],
  ◌∷◌, is_some, if◌then◌else◌, Bool-cases, inl, inr,
}
use kigeon.Errors.{
  Result, ok, err, wrap_err, Good, Good-ok, Good-bind, Good-wrap, Good-any, Good-if,
}
use kigeon.Pods.Informer.{Informer, enable}
use kigeon.Loki.Config.{Config, ConfigHook}
use kigeon.Loki.Hook.{
  HookRuntime, HookExecutor, PodGetter, Global, function, value, new_hook_executor, check_transform,
}
use kigeon.Loki.Sender.{Sender}
use kigeon.Loki.Factory.{
  SenderOptions, FactoryOptions, make_hook, new_sender, wants_pods, sender_options, options_with,
  make_sender, factory,
}

-- There is a hook exactly if one is configured, with that configuration and the pods of the options.
abbrev pub IsHook : Option ConfigHook → Option PodGetter → Option HookExecutor → Type 0
IsHook none pods none = Unit
IsHook none pods (some h) = ⊥
IsHook (some hook) pods none = ⊥
IsHook (some hook) pods (some h) = (h.hook ≡ hook) × (h.pods ≡ pods)

-- a sender as its configuration and its options want it
pub record IsMade (config : Config) (options : SenderOptions) (s : Sender) : Type 0 where
  pub same_config : s.config ≡ config
  pub has_url : (config.url == "") ≡ false
  pub same_mode : s.noop ≡ options.noop
  pub same_hook : IsHook config.hook options.pods s.hook

check_transform-Good :
    (hook : ConfigHook) (pods : Option PodGetter) (o : Option Global)
    → Good (λ h. (h.hook ≡ hook) × (h.pods ≡ pods)) (check_transform hook pods o)
unfolding check_transform
check_transform-Good hook pods none = tt
check_transform-Good hook pods (some function) = (refl, refl)
check_transform-Good hook pods (some (value type)) = tt

new_hook_executor-Good :
    (rt : HookRuntime) (hook : ConfigHook) (pods : Option PodGetter)
    → Good (λ h. (h.hook ≡ hook) × (h.pods ≡ pods)) (new_hook_executor rt hook pods)
unfolding new_hook_executor
new_hook_executor-Good rt hook pods =
    Good-bind (λ globals. Unit {0}) _
      (wrap_err "loading starlark hook %q: %w" (hook.script ∷ []) (rt.exec_file hook.script)) _
      (Good-any _) (λ globals u. check_transform-Good hook pods _)

make_hook-Good :
    (rt : HookRuntime) (config : Option ConfigHook) (pods : Option PodGetter)
    → Good (IsHook config pods) (make_hook rt config pods)
unfolding make_hook
make_hook-Good rt none pods = tt
make_hook-Good rt (some hook) pods =
    Good-bind (λ h. (h.hook ≡ hook) × (h.pods ≡ pods)) _
      (wrap_err "initializing config hook: %w" [] (new_hook_executor rt hook pods)) _
      (Good-wrap _ _ _ (new_hook_executor rt hook pods) (new_hook_executor-Good rt hook pods))
      (λ h g. g)

new_sender-Good :
    (rt : HookRuntime) (name : String) (config : Config) (has_fetcher : Bool)
    (options : SenderOptions)
    → Good (IsMade config options) (new_sender rt name config has_fetcher options)
unfolding new_sender
new_sender-Good rt name config has_fetcher options =
    Good-if _ (name == "") _ _ (λ h. tt)
      (λ named.
        Good-if _ (config.url == "") _ _ (λ h. tt)
          (λ url.
            Good-if _ has_fetcher _ _
              (λ h.
                Good-bind (IsHook config.hook options.pods) _
                  (make_hook rt config.hook options.pods) _
                  (make_hook-Good rt config.hook options.pods)
                  (λ hook g. record {
                    same_config = refl;
                    has_url = url;
                    same_mode = refl;
                    same_hook = g;
                  }))
              (λ h. tt)))

-- a hook that can get pods
abbrev pub has_pods : Option HookExecutor → Bool
has_pods none = false
has_pods (some h) = is_some h.pods

IsHook-cases :
    (config : Option ConfigHook) (pods : Option PodGetter) (hook : Option HookExecutor)
    → IsHook config pods hook
    → (is_some hook ≡ is_some config) × (has_pods hook ≡ (is_some config && is_some pods))
IsHook-cases none pods none h = (refl, refl)
IsHook-cases none pods (some hook) h = elim h [ ]
IsHook-cases (some c) pods none h = elim h [ ]
IsHook-cases (some c) pods (some hook) h = (refl, ap is_some h.1)

-- A hook is configured, and with `enrichPod`.
abbrev pub asks_for_pods : Option ConfigHook → Bool
asks_for_pods none = false
asks_for_pods (some hook) = hook.enrich_pod

-- What a sender needs of the informer, the configuration and the options.
pub record IsSupplied {D N : Type 0} (opts : FactoryOptions D N) (informer : Informer D N)
    (s : Sender) (left : Option (Informer D N)) : Type 0 where
  pub has_url : (s.config.url == "") ≡ false
  pub same_mode : s.noop ≡ opts.noop
  pub has_hook : is_some s.hook ≡ is_some s.config.hook
  pub gets_pods : has_pods s.hook ≡ asks_for_pods s.config.hook
  pub informer_left :
      left
      ≡ some (if asks_for_pods s.config.hook then record informer { enabled = true } else informer)

wants_pods-asks_for_pods : (o : Option ConfigHook) → wants_pods o ≡ asks_for_pods o
unfolding wants_pods
wants_pods-asks_for_pods none = refl
wants_pods-asks_for_pods (some h) = refl

asks_for_pods-cases : (o : Option ConfigHook) → (is_some o && asks_for_pods o) ≡ asks_for_pods o
asks_for_pods-cases none = refl
asks_for_pods-cases (some h) = refl

module _ {D N : Type 0} where
  options_with-some :
      (config : Config) (opts : FactoryOptions D N) (informer : Informer D N)
      → ((options_with config opts (some informer)).0.noop ≡ opts.noop)
        × (is_some (options_with config opts (some informer)).0.pods ≡ asks_for_pods config.hook)
        × ((options_with config opts (some informer)).1
            ≡ some (
                if asks_for_pods config.hook then record informer { enabled = true } else informer))
  unfolding options_with enable
  options_with-some config opts informer = elim (Bool-cases (asks_for_pods config.hook)) [
    | inl w ↦ simp (wants_pods-asks_for_pods config.hook, w) (refl, refl, refl)
    | inr w ↦ simp (wants_pods-asks_for_pods config.hook, w) (refl, refl, refl)
  ]

  options_of :
      (config : Config) (opts : FactoryOptions D N) (informer : Informer D N)
      → opts.pods ≡ some informer
      → ((sender_options config opts).0.noop ≡ opts.noop)
        × (is_some (sender_options config opts).0.pods ≡ asks_for_pods config.hook)
        × ((sender_options config opts).1
            ≡ some (
                if asks_for_pods config.hook then record informer { enabled = true } else informer))
  unfolding sender_options
  options_of config opts informer h =
      subst
        (λ o.
          ((options_with config opts o).0.noop ≡ opts.noop)
          × (is_some (options_with config opts o).0.pods ≡ asks_for_pods config.hook)
          × ((options_with config opts o).1
              ≡ some (
                  if asks_for_pods config.hook
                  then record informer { enabled = true }
                  else informer)))
        (sym h) (options_with-some config opts informer)

  supplied :
      (config : Config) (opts : FactoryOptions D N) (informer : Informer D N) (s : Sender)
      → opts.pods ≡ some informer
      → IsMade config (sender_options config opts).0 s
      → IsSupplied opts informer s (sender_options config opts).1
  supplied config opts informer s h made =
      let o = options_of config opts informer h in
      let c = IsHook-cases config.hook (sender_options config opts).0.pods s.hook made.same_hook in
      let same : config ≡ s.config = sym made.same_config in
      record {
        has_url = subst (λ k. (k.url == "") ≡ false) same made.has_url;
        same_mode = made.same_mode ∙ o.0;
        has_hook = subst (λ k. is_some s.hook ≡ is_some k.hook) same c.0;
        gets_pods =
            subst (λ k. has_pods s.hook ≡ asks_for_pods k.hook) same
              (c.1 ∙ ap (λ b. is_some config.hook && b) o.1 ∙ asks_for_pods-cases config.hook);
        informer_left =
            subst
              (λ k.
                (sender_options config opts).1
                ≡ some
                    (if asks_for_pods k.hook then record informer { enabled = true } else informer))
              same o.2;
      }

  make_sender-IsSupplied :
      (rt : HookRuntime) (name : String) (has_fetcher : Bool) (opts : FactoryOptions D N)
      (r : Result Config) (informer : Informer D N) (s : Sender)
      → opts.pods ≡ some informer
      → (make_sender rt name has_fetcher opts r).0 ≡ ok s
      → IsSupplied opts informer s (make_sender rt name has_fetcher opts r).1
  unfolding make_sender
  make_sender-IsSupplied rt name has_fetcher opts (err e) informer s h made = absurd (cc)
  make_sender-IsSupplied rt name has_fetcher opts (ok config) informer s h made =
      supplied config opts informer s h (
        Good-ok _ _ s (new_sender-Good rt name config has_fetcher (sender_options config opts).0)
          made)

  -- A sender that `Factory` makes, with a pod informer among its options, has a URL, a hook exactly
  -- if one is configured, and is in dry-run mode exactly if the options say so. Its hook can get
  -- pods exactly if it is configured to enrich events with them, and exactly then the informer has
  -- been enabled.
  pub factory-IsSupplied :
      {Raw : Type 0} (rt : HookRuntime) (unmarshal : Raw → Result Config) (getenv : String → String)
      (name : String) (raw : Raw) (has_fetcher : Bool) (opts : FactoryOptions D N)
      (informer : Informer D N) (s : Sender)
      → opts.pods ≡ some informer
      → (factory rt unmarshal getenv name raw has_fetcher opts).0 ≡ ok s
      → IsSupplied opts informer s (factory rt unmarshal getenv name raw has_fetcher opts).1
  unfolding factory
  factory-IsSupplied rt unmarshal getenv name raw has_fetcher opts informer s =
      make_sender-IsSupplied rt name has_fetcher opts _ informer s
