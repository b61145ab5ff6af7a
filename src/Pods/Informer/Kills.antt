-- ===== src/Pods/Informer/Kills.antt =====
-- Which kills `OnOOMKilled` of internal/pods/informer.go reports.
use kigeon.Prelude.{
  ℕ, ◌-◌, ◌≡◌, refl, String, Bool, false, not, ◌&&◌, ◌||◌, Option, none, some, List, [], ◌∷◌, ◌==◌,
  eq_iff, arith, if◌then◌else◌, contains, count, ap, inl, inr, Bool-cases, eqb,
}
use kigeon.Kubernetes.{Event, Pod, Time}
use kigeon.Pods.Oom.{Formats, oom_killed_events}
use kigeon.Pods.Oom.Instances.{IsInjective, PodIsKnown, some_tells, with_uid-oom_killed_events}
use kigeon.Pods.Informer.{
  Object, to_pod, uids, unknown, known_events, notify, notify_pod, on_update,
}

-- The pod tells of a kill that is not older than `since` and has the UID `u`.
unfoldable pub tells_of : Formats → Time → String → Pod → Bool
tells_of formats since u p =
    some_tells formats p since u p.init_container_statuses
    || some_tells formats p since u p.container_statuses

unfoldable pub some_pod_tells : Formats → Time → String → Option Pod → Bool
unfolding tells_of
some_pod_tells formats since u none = false
some_pod_tells formats since u (some p) = tells_of formats since u p

-- The identifiers of the instances that a pod tells of are known, if there is a pod.
abbrev pub OptionIsKnown : Formats → (String → Type 0) → Option Pod → Type 0
OptionIsKnown formats Known none = Unit
OptionIsKnown formats Known (some p) = PodIsKnown formats Known p

module _ (formats : Formats) (Known : String → Type 0) (injective : IsInjective formats Known) where
  count-unknown :
      (u : String) (known : List String) (events : List Event)
      → count (λ e. e.uid == u) (unknown formats known events)
        ≡ (if contains known u then 0 else count (λ e. e.uid == u) events)
  unfolding unknown
  count-unknown u known [] = ground arith
  count-unknown u known (e ∷ l) = elim (Bool-cases (e.uid == u)) [
    | inl same ↦
        ground (arith, same, count-unknown u known l, ap (contains known) ((eq_iff e.uid u).0 same))
    | inr differ ↦ elim (Bool-cases (contains known e.uid)) [
      | inl h ↦ ground (arith, h, differ, count-unknown u known l)
      | inr h ↦ ground (arith, h, differ, count-unknown u known l)
    ]
  ]

  contains-uids :
      (u : String) (events : List Event)
      → contains (uids formats events) u ≡ not (eqb (count (λ e. e.uid == u) events) 0)
  contains-uids u [] = refl
  contains-uids u (e ∷ l) = ground (arith, contains-uids u l)

  contains-known :
      (u : String) (since : Time) (old : Option Pod)
      → OptionIsKnown formats Known old
      → contains (uids formats (known_events formats old since)) u
        ≡ some_pod_tells formats since u old
  unfolding known_events some_pod_tells
  contains-known u since none known = refl
  contains-known u since (some p) known = ground (
    arith,
    contains-uids u (oom_killed_events formats p since),
    with_uid-oom_killed_events formats p since Known injective u known,
  )

  count-notify_pod :
      (u : String) (now : Time) (max_age : ℕ) (old new : Option Pod)
      → OptionIsKnown formats Known old
      → OptionIsKnown formats Known new
      → count (λ e. e.uid == u) (notify_pod formats now max_age old new) ≡ (
          if some_pod_tells formats (now - max_age) u new
            && not (some_pod_tells formats (now - max_age) u old)
          then 1
          else 0)
  unfolding notify_pod notify some_pod_tells
  count-notify_pod u now max_age old none a b = refl
  count-notify_pod u now max_age old (some new) a b = ground (
    arith,
    count-unknown u (uids formats (known_events formats old (now - max_age)))
        (oom_killed_events formats new (now - max_age)),
    contains-known u (now - max_age) old a,
    with_uid-oom_killed_events formats new (now - max_age) Known injective u b,
  )

  -- If the identifiers of the instances have different hashes, an update of a pod calls `fn` once
  -- with the event of each kill within the age that the new pod tells of and the old one does not, and with no other event.
  pub count-on_update :
      (u : String) (now : Time) (max_age : ℕ) (old new : Object)
      → OptionIsKnown formats Known (to_pod old)
      → OptionIsKnown formats Known (to_pod new)
      → count (λ e. e.uid == u) (on_update formats now max_age old new) ≡ (
          if some_pod_tells formats (now - max_age) u (to_pod new)
            && not (some_pod_tells formats (now - max_age) u (to_pod old))
          then 1
          else 0)
  unfolding on_update
  count-on_update u now max_age old new a b =
      count-notify_pod u now max_age (to_pod old) (to_pod new) a b
