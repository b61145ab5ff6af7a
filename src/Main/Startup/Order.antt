-- ===== src/Main/Startup/Order.antt =====
-- The order in which run of cmd/kigeon/main.go starts the parts.
use kigeon.Prelude.{
  ◌≡◌, refl, sym, ap, subst, ◌∙◌, ◌⊎◌, inl, inr, String, Bool, true, false, is_some, Option, none,
  some, List, [], ◌∷◌, ◌++◌,
}
use mathlib.Core.List.{append-nil}
use kigeon.Config.{Config, EventSenderConfig, FilterConfig, NamespaceSelectorConfig}
use kigeon.Main.Startup.{
  Action, subscribed, filter_started, filter_tracked, sender_tracked, sender_started,
  metrics_started, queue_started, pods_started, pruned, pusher_started, Parts, Steps, then_steps,
  attempt, selector_steps, filter_steps, sender_steps, senders_steps, sender_names, pods_steps,
  pods_enabled, start_steps, pusher_steps, run,
}
use kigeon.Main.Startup.Subscribing.{
  subscriptions, prepend, subscribed_before_pusher, Subscribes, then_steps-Subscribes,
  none-Subscribes, attempt-Subscribes, one-Subscribes, quiet-Subscribes,
}

selector_steps-Subscribes :
    (parts : Parts) (name : String) (o : Option NamespaceSelectorConfig)
    → Subscribes [] (selector_steps parts name o)
unfolding selector_steps
selector_steps-Subscribes parts name none = none-Subscribes none
selector_steps-Subscribes parts name (some s) =
    then_steps-Subscribes [] []
      (attempt "failed to create label selector for sender %s: %w" (name ∷ []) (parts.selector s)
        [])
      (attempt "failed to start namespace filter for sender %s: %w" (name ∷ [])
        (parts.start_filter name) (filter_started name ∷ filter_tracked name ∷ []))
      (attempt-Subscribes _ _ (parts.selector s) [] [] (none-Subscribes none))
      (attempt-Subscribes _ _ (parts.start_filter name) [] _ (
        then_steps-Subscribes [] [] (filter_started name ∷ [], none)
          (filter_tracked name ∷ [], none)
          (quiet-Subscribes (filter_started name) refl (λ more. refl))
          (quiet-Subscribes (filter_tracked name) refl (λ more. refl))))

filter_steps-Subscribes :
    (parts : Parts) (name : String) (f : Option FilterConfig)
    → Subscribes [] (filter_steps parts name f)
unfolding filter_steps
filter_steps-Subscribes parts name none = none-Subscribes none
filter_steps-Subscribes parts name (some f) =
    selector_steps-Subscribes parts name f.namespace_selector

sender_steps-Subscribes :
    (parts : Parts) (s : EventSenderConfig) → Subscribes (s.name ∷ []) (sender_steps parts s)
unfolding sender_steps
sender_steps-Subscribes parts s =
    then_steps-Subscribes [] (s.name ∷ []) (filter_steps parts s.name s.filter) _
      (filter_steps-Subscribes parts s.name s.filter)
      (then_steps-Subscribes (s.name ∷ []) []
        (attempt "failed to subscribe sender %s to queue: %w" (s.name ∷ []) (parts.subscribe s.name)
          (subscribed s.name ∷ []))
        (attempt "failed to create sender %s: %w" (s.name ∷ []) (parts.create s)
          (sender_tracked s.name ∷ sender_started s.name ∷ []))
        (attempt-Subscribes _ _ (parts.subscribe s.name) _ _
          (one-Subscribes (subscribed s.name) (λ more. refl)))
        (attempt-Subscribes _ _ (parts.create s) _ _ (
          then_steps-Subscribes [] [] (sender_tracked s.name ∷ [], none)
            (sender_started s.name ∷ [], none)
            (quiet-Subscribes (sender_tracked s.name) refl (λ more. refl))
            (quiet-Subscribes (sender_started s.name) refl (λ more. refl)))))

senders_steps-Subscribes :
    (parts : Parts) (l : List EventSenderConfig)
    → Subscribes (sender_names l) (senders_steps parts l)
unfolding senders_steps
senders_steps-Subscribes parts [] = none-Subscribes none
senders_steps-Subscribes parts (s ∷ l) =
    then_steps-Subscribes (s.name ∷ []) (sender_names l) (sender_steps parts s)
      (senders_steps parts l) (sender_steps-Subscribes parts s) (senders_steps-Subscribes parts l)

pods_steps-Subscribes : (parts : Parts) (enabled : Bool) → Subscribes [] (pods_steps parts enabled)
unfolding pods_steps
pods_steps-Subscribes parts false = none-Subscribes none
pods_steps-Subscribes parts true =
    attempt-Subscribes _ _ parts.start_pods [] _ (quiet-Subscribes pods_started refl (λ more. refl))

start_steps-Subscribes :
    (parts : Parts) (c : Config)
    → Subscribes (sender_names c.event_senders ++ []) (start_steps parts c)
unfolding start_steps
start_steps-Subscribes parts c =
    let names = sender_names c.event_senders in
    then_steps-Subscribes [] (names ++ []) _ _
      (attempt-Subscribes "failed to create Kubernetes client: %w" [] parts.kubernetes_client [] []
        (none-Subscribes none))
      (then_steps-Subscribes [] (names ++ []) _ _
        (attempt-Subscribes "failed to start metrics server: %w" [] parts.metrics_server [] _
          (quiet-Subscribes metrics_started refl (λ more. refl)))
        (then_steps-Subscribes [] (names ++ []) _ _
          (attempt-Subscribes "failed to start event queue: %w" [] parts.event_queue [] _
            (quiet-Subscribes queue_started refl (λ more. refl)))
          (then_steps-Subscribes [] (names ++ []) _ _
            (attempt-Subscribes "failed to register queue metrics: %w" [] parts.register_metrics []
              [] (none-Subscribes none))
            (then_steps-Subscribes names [] _ _ (senders_steps-Subscribes parts c.event_senders) (
              then_steps-Subscribes [] [] _ _
                (attempt-Subscribes "failed to prune stale senders: %w" [] (parts.prune names) [] _
                  (quiet-Subscribes (pruned names) refl (λ more. refl)))
                (pods_steps-Subscribes parts
                  (pods_enabled parts c.event_senders c.pods.oom_killed_events)))))))

-- The pusher is started first by what follows.
pusher_after :
    (names : List String) (s next : Steps) (more : List Action)
    → Subscribes names s
    → next.0 ≡ pusher_started ∷ more
    → ((subscribed_before_pusher (then_steps s next).0 ≡ none)
        × (is_some (then_steps s next).1 ≡ true))
      ⊎ (subscribed_before_pusher (then_steps s next).0 ≡ some names)
pusher_after names (a, some e) next more p h =
    inl (ap subscribed_before_pusher (sym (append-nil a)) ∙ p.quiet [], refl)
pusher_after names (a, none) (b, f) more p h = inr (
    p.quiet b
    ∙ ap (λ l. prepend (subscriptions a) (subscribed_before_pusher l)) h
    ∙ ap some (append-nil (subscriptions a) ∙ p.all refl))

-- Whatever fails: either the event pusher is not started and `run` returns an error, or it is started
-- and has been preceded by the subscription of every sender of the configuration, in the order of
-- the configuration, and of no other.
pub run_order :
    (parts : Parts) (c : Config)
    → ((subscribed_before_pusher (run parts c).0 ≡ none) × (is_some (run parts c).1 ≡ true))
      ⊎ (subscribed_before_pusher (run parts c).0 ≡ some (sender_names c.event_senders))
unfolding run pusher_steps
run_order parts c =
    pusher_after (sender_names c.event_senders) (start_steps parts c) (pusher_steps parts c _ _) _
      (subst (λ l. Subscribes l (start_steps parts c)) (append-nil (sender_names c.event_senders))
        (start_steps-Subscribes parts c))
      refl
