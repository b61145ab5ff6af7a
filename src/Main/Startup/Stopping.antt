-- ===== src/Main/Startup/Stopping.antt =====
-- What run of cmd/kigeon/main.go has started it stops.
use kigeon.Prelude.{
  ◌≡◌, refl, ℕ, ◌+◌, String, Bool, true, false, Option, none, some, List, [], ◌∷◌, ◌++◌, arith,
  count, count-append, ◌==◌,
}
use kigeon.Errors.{Error}
use kigeon.Config.{Config}
use kigeon.Main.Startup.{
  Action, tracked_senders, tracked_filters, pusher_started, Parts, Steps, then_steps, attempt,
  start_steps, pusher_steps, run, ready, pods_stopped, pusher_stopped, queue_stopped,
  metrics_stopped, stop_senders, stop_filters, shutdown, oom_steps,
}
use kigeon.Main.Startup.Tracking.{
  Part, a_sender, a_filter, starts, stops, tracks, Tracks, start_steps-Tracks,
}

module _ (part : Part) (name : String) where
  -- the entries of the part's slice with the name
  listed : Part → List String → List String → ℕ
  listed a_sender senders filters = count (λ n. n == name) senders
  listed a_filter senders filters = count (λ n. n == name) filters

  tracked-listed :
      (actions : List Action)
      → count (tracks part name) actions
        ≡ listed part (tracked_senders actions) (tracked_filters actions)
  unfolding tracked_senders tracked_filters listed
  tracked-listed [] = ground arith
  tracked-listed (a ∷ actions) = ground (arith, tracked-listed actions)

  -- The shutdown stops what is listed.
  stop_senders-stops :
      (senders : List String)
      → (count (starts part name) (stop_senders senders) ≡ 0)
        × (count (stops part name) (stop_senders senders) ≡ listed part senders [])
  unfolding stop_senders listed
  stop_senders-stops [] = (refl, ground arith)
  stop_senders-stops (n ∷ senders) =
      (ground (arith, stop_senders-stops senders), ground (arith, stop_senders-stops senders))

  stop_filters-stops :
      (filters : List String)
      → (count (starts part name) (stop_filters filters) ≡ 0)
        × (count (stops part name) (stop_filters filters) ≡ listed part [] filters)
  unfolding stop_filters listed
  stop_filters-stops [] = (refl, ground arith)
  stop_filters-stops (n ∷ filters) =
      (ground (arith, stop_filters-stops filters), ground (arith, stop_filters-stops filters))

  -- steps that start no such part, and stop `stopped` of them if they return no error
  record Stops (stopped : ℕ) (s : Steps) : Type 0 where
    starts_none : count (starts part name) s.0 ≡ 0
    stopped_by : s.1 ≡ none → count (stops part name) s.0 ≡ stopped

  attempt-Stops :
      (format : String) (args : List String) (e : Option Error) (actions : List Action) (k : ℕ)
      (t : Steps)
      → count (starts part name) actions ≡ 0
      → count (stops part name) actions ≡ 0
      → Stops k t
      → Stops k (then_steps (attempt format args e actions) t)
  attempt-Stops format args (some e) actions k (b, f) hs ht q = record {
    starts_none = refl;
    stopped_by = λ h. absurd (cc);
  }
  attempt-Stops format args none actions k (b, f) hs ht q = record {
    starts_none = omega (arith, count-append (starts part name) actions b, hs, q.starts_none);
    stopped_by = λ h. omega (arith, count-append (stops part name) actions b, ht, q.stopped_by h);
  }

  listed_both :
      (senders filters : List String)
      → listed part senders [] + listed part [] filters ≡ listed part senders filters
  unfolding listed
  listed_both senders filters = ground arith

  shutdown-Stops :
      (senders filters : List String)
      → Stops (listed part senders filters) (ready ∷ shutdown senders filters, none)
  unfolding shutdown
  shutdown-Stops senders filters =
      let rest = pods_stopped ∷ pusher_stopped ∷ queue_stopped ∷ metrics_stopped ∷ [] in
      record {
        starts_none = ground (
          arith,
          (stop_senders-stops senders).0,
          (stop_filters-stops filters).0,
          count-append (starts part name) (stop_senders senders) (stop_filters filters ++ rest),
          count-append (starts part name) (stop_filters filters) rest,
        );
        stopped_by = λ h. ground (
          arith,
          (stop_senders-stops senders).1,
          (stop_filters-stops filters).1,
          listed_both senders filters,
          count-append (stops part name) (stop_senders senders) (stop_filters filters ++ rest),
          count-append (stops part name) (stop_filters filters) rest,
        );
      }

  oom_steps-Stops :
      (parts : Parts) (enabled : Bool) (k : ℕ) (t : Steps)
      → Stops k t
      → Stops k (then_steps (oom_steps parts enabled) t)
  unfolding oom_steps
  oom_steps-Stops parts false k t q = attempt-Stops "" [] none [] k t refl refl q
  oom_steps-Stops parts true k t q =
      attempt-Stops _ _ parts.watch_oom _ k t (ground arith) (ground arith) q

  pusher_steps-Stops :
      (parts : Parts) (c : Config) (senders filters : List String)
      → Stops (listed part senders filters) (pusher_steps parts c senders filters)
  unfolding pusher_steps
  pusher_steps-Stops parts c senders filters =
      attempt-Stops "" [] none (pusher_started ∷ []) _ _ (ground arith) (ground arith) (
        attempt-Stops _ _ parts.wait_for_pusher [] _ _ refl refl
          (oom_steps-Stops parts c.pods.oom_killed_events _ _ (shutdown-Stops senders filters)))

  both_parts :
      (s t : Steps)
      → Tracks part name s
      → Stops (count (tracks part name) s.0) t
      → (then_steps s t).1 ≡ none
      → count (starts part name) (then_steps s t).0 ≡ count (stops part name) (then_steps s t).0
  both_parts (a, some e) (b, f) p q h = absurd (cc)
  both_parts (a, none) (b, f) p q h = omega (
    arith,
    count-append (starts part name) a b,
    count-append (stops part name) a b,
    p.all,
    p.stops_none,
    q.starts_none,
    q.stopped_by h,
  )

-- A run that returns no error has stopped as many senders of a name as it has started, and as many
-- namespace filters.
pub run-stops :
    (part : Part) (name : String) (parts : Parts) (c : Config)
    → (run parts c).1 ≡ none
    → count (starts part name) (run parts c).0 ≡ count (stops part name) (run parts c).0
unfolding run
run-stops part name parts c h =
    let s = start_steps parts c in
    both_parts part name s (pusher_steps parts c (tracked_senders s.0) (tracked_filters s.0))
      (start_steps-Tracks part name parts c)
      (rw (tracked-listed part name s.0)
        (pusher_steps-Stops part name parts c (tracked_senders s.0) (tracked_filters s.0)))
      h
