-- ===== src/Main/Startup/Tracking.antt =====
-- The slices `senders` and `filters` of run of cmd/kigeon/main.go, and what it has started.
use kigeon.Prelude.{
  ◌≡◌, refl, String, Bool, true, false, Option, none, some, List, [], ◌∷◌, arith, count,
  count-append, ◌==◌,
}
use kigeon.Errors.{Error}
use kigeon.Config.{Config, EventSenderConfig, FilterConfig, NamespaceSelectorConfig}
use kigeon.Main.Startup.{
  Action, filter_tracked, sender_tracked, filter_started, filter_stopped, sender_started,
  sender_stopped, Parts, Steps, then_steps, attempt, selector_steps, filter_steps, sender_steps,
  senders_steps, sender_names, pods_steps, pods_enabled, start_steps,
}

-- the parts of which a run has one for each sender of the configuration
pub data Part : Type 0 where
  a_sender a_filter : Part

abbrev pub starts : Part → String → Action → Bool
starts a_sender name (sender_started n) = n == name
starts a_filter name (filter_started n) = n == name
starts _ name _ = false

abbrev pub stops : Part → String → Action → Bool
stops a_sender name (sender_stopped n) = n == name
stops a_filter name (filter_stopped n) = n == name
stops _ name _ = false

abbrev pub tracks : Part → String → Action → Bool
tracks a_sender name (sender_tracked n) = n == name
tracks a_filter name (filter_tracked n) = n == name
tracks _ name _ = false

module _ (part : Part) (name : String) where
  -- steps that append each part that they start to its slice, and stop none
  pub record Tracks (s : Steps) : Type 0 where
    pub all : count (starts part name) s.0 ≡ count (tracks part name) s.0
    pub stops_none : count (stops part name) s.0 ≡ 0

  then_steps-Tracks : (s t : Steps) → Tracks s → Tracks t → Tracks (then_steps s t)
  then_steps-Tracks (a, some e) (b, f) p q = record { all = p.all; stops_none = p.stops_none }
  then_steps-Tracks (a, none) (b, f) p q = record {
    all = omega (
      arith,
      count-append (starts part name) a b,
      count-append (tracks part name) a b,
      p.all,
      q.all,
    );
    stops_none = omega (arith, count-append (stops part name) a b, p.stops_none, q.stops_none);
  }

  attempt-Tracks :
      (format : String) (args : List String) (e : Option Error) (actions : List Action)
      → Tracks (actions, none)
      → Tracks (attempt format args e actions)
  attempt-Tracks format args none actions h = h
  attempt-Tracks format args (some e) actions h = record { all = refl; stops_none = refl }

  -- actions that are about neither senders nor filters
  nothing-Tracks :
      (actions : List Action)
      → count (starts part name) actions ≡ 0
      → count (tracks part name) actions ≡ 0
      → count (stops part name) actions ≡ 0
      → Tracks (actions, none)
  nothing-Tracks actions a b c = record { all = omega (arith, a, b); stops_none = c }

  selector_steps-Tracks :
      (parts : Parts) (sender : String) (o : Option NamespaceSelectorConfig)
      → Tracks (selector_steps parts sender o)
  unfolding selector_steps
  selector_steps-Tracks parts sender none = record { all = refl; stops_none = refl }
  selector_steps-Tracks parts sender (some s) =
      then_steps-Tracks _ _
        (attempt-Tracks _ _ (parts.selector s) [] (record { all = refl; stops_none = refl }))
        (attempt-Tracks _ _ (parts.start_filter sender) _
          (record { all = ground arith; stops_none = ground arith }))

  filter_steps-Tracks :
      (parts : Parts) (sender : String) (f : Option FilterConfig)
      → Tracks (filter_steps parts sender f)
  unfolding filter_steps
  filter_steps-Tracks parts sender none = record { all = refl; stops_none = refl }
  filter_steps-Tracks parts sender (some f) =
      selector_steps-Tracks parts sender f.namespace_selector

  senders_steps-Tracks :
      (parts : Parts) (l : List EventSenderConfig) → Tracks (senders_steps parts l)
  unfolding senders_steps sender_steps
  senders_steps-Tracks parts [] = record { all = refl; stops_none = refl }
  senders_steps-Tracks parts (s ∷ l) =
      then_steps-Tracks _ _
        (then_steps-Tracks _ _ (filter_steps-Tracks parts s.name s.filter) (
          then_steps-Tracks _ _
            (attempt-Tracks _ _ (parts.subscribe s.name) _
              (record { all = ground arith; stops_none = ground arith }))
            (attempt-Tracks _ _ (parts.create s) _
              (record { all = ground arith; stops_none = ground arith }))))
        (senders_steps-Tracks parts l)

  pods_steps-Tracks : (parts : Parts) (enabled : Bool) → Tracks (pods_steps parts enabled)
  unfolding pods_steps
  pods_steps-Tracks parts false = record { all = refl; stops_none = refl }
  pods_steps-Tracks parts true =
      attempt-Tracks _ _ parts.start_pods _
        (record { all = ground arith; stops_none = ground arith })

  pub start_steps-Tracks : (parts : Parts) (c : Config) → Tracks (start_steps parts c)
  unfolding start_steps
  start_steps-Tracks parts c =
      then_steps-Tracks _ _
        (attempt-Tracks _ _ parts.kubernetes_client [] (record { all = refl; stops_none = refl }))
        (then_steps-Tracks _ _
          (attempt-Tracks _ _ parts.metrics_server _
            (record { all = ground arith; stops_none = ground arith }))
          (then_steps-Tracks _ _
            (attempt-Tracks _ _ parts.event_queue _
              (record { all = ground arith; stops_none = ground arith }))
            (then_steps-Tracks _ _
              (attempt-Tracks _ _ parts.register_metrics []
                (record { all = refl; stops_none = refl }))
              (then_steps-Tracks _ _ (senders_steps-Tracks parts c.event_senders) (
                then_steps-Tracks _ _
                  (attempt-Tracks _ _ (parts.prune (sender_names c.event_senders)) _
                    (record { all = ground arith; stops_none = ground arith }))
                  (pods_steps-Tracks parts
                    (pods_enabled parts c.event_senders c.pods.oom_killed_events)))))))
