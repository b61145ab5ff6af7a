-- ===== src/Pods/Oom/Instances.antt =====
-- What `OOMKilledEvents` of internal/pods/oom.go reports, described by the terminated instances.
use text.Mathlib.TextLemmas.{append_cancel_left}
use kigeon.Prelude.{
  ℕ, ◌≡◌, refl, ap, String, Bool, true, false, ◌&&◌, ◌||◌, Option, none, some, List, [], ◌∷◌, ◌++◌,
  ◌==◌, eq_iff, eq_refl, arith, if◌then◌else◌, contains, All, leb, count, count-append, map, inl,
  inr, Bool-cases,
}
use kigeon.Kubernetes.{Event, Pod, Container, ContainerStatus, Terminated, Time}
use kigeon.Pods.Oom.{
  Formats, Found, is_oom_killed, instance_id, add_terminated, add_state, add, add_all,
  oom_killed_events, oom_killed_event, event_uid, memory_limit,
}

-- No two of the known identifiers have the same hash.
abbrev pub IsInjective : Formats → (String → Type 0) → Type 0
IsInjective formats Known =
    (a b : String) → Known a → Known b → formats.hash a ≡ formats.hash b → a ≡ b

-- The identifiers of the instances that a pod tells of are known.
module _ (formats : Formats) (Known : String → Type 0) (pod : Pod) where
  abbrev pub IsKnown : String → Option Terminated → Type 0
  IsKnown name none = Unit
  IsKnown name (some t) = Known (instance_id formats pod name t)

  abbrev pub AreKnown : List ContainerStatus → Type 0
  AreKnown [] = Unit
  AreKnown (s ∷ l) = IsKnown s.name s.state × IsKnown s.name s.last_termination_state × AreKnown l

  abbrev pub PodIsKnown : Type 0
  PodIsKnown = AreKnown pod.init_container_statuses × AreKnown pod.container_statuses

module _ (formats : Formats) (pod : Pod) (since : Time) where
  -- The event with the UID `u` stands for a kill that this state tells of.
  unfoldable pub tells : String → String → Option Terminated → Bool
  tells u name none = false
  tells u name (some t) =
      t.reason == "OOMKilled"
      && leb since t.finished_at
      && (event_uid formats (instance_id formats pod name t) == u)

  unfoldable pub some_tells : String → List ContainerStatus → Bool
  unfolding tells
  some_tells u [] = false
  some_tells u (s ∷ l) =
      tells u s.name s.state || tells u s.name s.last_termination_state || some_tells u l

  tells-is_oom_killed :
      (u name : String) (t : Terminated)
      → tells u name (some t)
        ≡ (is_oom_killed since t && (event_uid formats (instance_id formats pod name t) == u))
  unfolding tells is_oom_killed
  tells-is_oom_killed u name t = ground arith

  -- the event with the UID `u` has been found
  found_uid : String → Found → Bool
  found_uid u found = contains (map (event_uid formats) found.seen) u

  abbrev with_uid : String → List Event → ℕ
  with_uid u events = count (λ e. e.uid == u) events

  -- each event that has been found stands once in the list
  abbrev CountsEach : String → Found → Type 0
  CountsEach u found = with_uid u found.events ≡ (if found_uid u found then 1 else 0)

  uid_of_event :
      (name field_path id : String) (t : Terminated) (limit : String)
      → (oom_killed_event formats pod name field_path id t limit).uid ≡ event_uid formats id
  unfolding oom_killed_event
  uid_of_event name field_path id t limit = refl

  -- What is found under its identifier is found under its UID.
  map-contains :
      (l : List String) (a : String)
      → contains l a ≡ true
      → contains (map (event_uid formats) l) (event_uid formats a) ≡ true
  map-contains [] a h = h
  map-contains (x ∷ l) a h = elim (Bool-cases (x == a)) [
    | inl same ↦
        ground (arith, ap (event_uid formats) ((eq_iff x a).0 same), eq_refl (event_uid formats a))
    | inr differ ↦ ground (arith, h, differ, map-contains l a)
  ]

  module _ (Known : String → Type 0) (injective : IsInjective formats Known) where
    -- From `found` to `found'` exactly the event with the UID `u` was found, if `told` holds.
    record Grows (u : String) (told : Bool) (found found' : Found) : Type 0 where
      finds : found_uid u found' ≡ (found_uid u found || told)
      counts :
          All Known found.seen → CountsEach u found → All Known found'.seen × CountsEach u found'

    Grows-trans :
        {u : String} {b c : Bool} {f g h : Found}
        → Grows u b f g
        → Grows u c g h
        → Grows u (b || c) f h
    Grows-trans {u} {b} {c} {f} {g} {h} p q = record {
      finds = ground (arith, p.finds, q.finds);
      counts = λ a k. q.counts (p.counts a k).0 (p.counts a k).1;
    }

    Grows-refl : (u : String) (f : Found) → Grows u false f f
    Grows-refl u f = record { finds = ground arith; counts = λ a k. (a, k) }

    same_uid :
        (a b : String) → Known a → Known b → (event_uid formats a == event_uid formats b) ≡ (a == b)
    unfolding event_uid
    same_uid a b ka kb = elim (Bool-cases (a == b)) [
      | inl same ↦
          ground
            (arith, ap (event_uid formats) ((eq_iff a b).0 same), eq_refl (event_uid formats b))
      | inr differ ↦ elim (Bool-cases (event_uid formats a == event_uid formats b)) [
        | inl h ↦ absurd (
            ground (
              arith,
              differ,
              (eq_iff a b).1 (
                  injective a b ka kb (
                    append_cancel_left "kigeon-oomkilled-" (formats.hash a) (formats.hash b)
                      ((eq_iff (event_uid formats a) (event_uid formats b)).0 h))),
            ))
        | inr h ↦ ground arith
      ]
    ]

    contains-map :
        (l : List String) (a : String)
        → All Known l
        → Known a
        → contains (map (event_uid formats) l) (event_uid formats a) ≡ contains l a
    contains-map [] a kl ka = refl
    contains-map (x ∷ l) a kl ka = ground (arith, same_uid x a kl.0 ka, contains-map l a kl.1 ka)

    -- An instance that has been seen adds nothing.
    seen-Grows :
        (u id : String) (found : Found)
        → contains found.seen id ≡ true
        → Grows u (event_uid formats id == u) found found
    unfolding found_uid
    seen-Grows u id found seen = record {
      finds = elim (Bool-cases (event_uid formats id == u)) [
        | inl e ↦ ground (
          arith,
          map-contains found.seen id seen,
          ap (contains (map (event_uid formats) found.seen))
              ((eq_iff (event_uid formats id) u).0 e),
        )
        | inr e ↦ ground arith
      ];
      counts = λ a k. (a, k);
    }

    -- Another one adds its event.
    new-Grows :
        (u id : String) (e : Event) (found : Found)
        → Known id
        → contains found.seen id ≡ false
        → e.uid ≡ event_uid formats id
        → Grows u
            (event_uid formats id == u)
            found
            (record { seen = id ∷ found.seen; events = found.events ++ (e ∷ []) })
    unfolding found_uid
    new-Grows u id e found known new same = record {
      finds = ground arith;
      counts = λ a k. (
        (known, a),
        elim (Bool-cases (event_uid formats id == u)) [
          | inl h ↦ ground (
            arith,
            k,
            same,
            count-append (λ e. e.uid == u) found.events (e ∷ []),
            contains-map found.seen id a known,
            ap (contains (map (event_uid formats) found.seen))
                ((eq_iff (event_uid formats id) u).0 h),
          )
          | inr h ↦ ground (arith, k, same, count-append (λ e. e.uid == u) found.events (e ∷ []))
        ],
      );
    }

    add_terminated-Grows :
        (u name field_path : String) (limits : List Container) (t : Terminated) (found : Found)
        → Known (instance_id formats pod name t)
        → Grows u
            (tells u name (some t))
            found
            (add_terminated formats pod since name field_path limits t found)
    unfolding add_terminated
    add_terminated-Grows u name field_path limits t found known =
        let id = instance_id formats pod name t in
        elim (Bool-cases (is_oom_killed since t)) [
          | inr k ↦ simp (k, tells-is_oom_killed u name t) (Grows-refl u found)
          | inl k ↦ elim (Bool-cases (contains found.seen id)) [
            | inl old ↦ simp (k, old, tells-is_oom_killed u name t) (seen-Grows u id found old)
            | inr new ↦
                simp (k, new, tells-is_oom_killed u name t)
                  (new-Grows u id _ found known new
                    (uid_of_event name field_path id t (memory_limit limits name)))
          ]
        ]

    add_state-Grows :
        (u name field_path : String) (limits : List Container) (state : Option Terminated)
        (found : Found)
        → IsKnown formats Known pod name state
        → Grows u
            (tells u name state)
            found
            (add_state formats pod since name field_path limits state found)
    unfolding add_state tells
    add_state-Grows u name field_path limits none found known = Grows-refl u found
    add_state-Grows u name field_path limits (some t) found known =
        add_terminated-Grows u name field_path limits t found known

    add_all-Grows :
        (u kind : String) (limits : List Container) (l : List ContainerStatus) (found : Found)
        → AreKnown formats Known pod l
        → Grows u (some_tells u l) found (add_all formats pod since kind limits l found)
    unfolding add_all add some_tells
    add_all-Grows u kind limits [] found known = Grows-refl u found
    add_all-Grows u kind limits (s ∷ l) found known =
        Grows-trans
          (Grows-trans (add_state-Grows u s.name _ limits s.state found known.0)
            (add_state-Grows u s.name _ limits s.last_termination_state _ known.1))
          (add_all-Grows u kind limits l _ known.2)

    -- If the identifiers of the instances have different hashes, the events with one UID are one if
    -- some container of the pod, init or not, tells in its present or its last state of a kill that is not older than
    -- `since` and has this UID, and else none.
    pub with_uid-oom_killed_events :
        (u : String)
        → PodIsKnown formats Known pod
        → with_uid u (oom_killed_events formats pod since) ≡ (
            if some_tells u pod.init_container_statuses || some_tells u pod.container_statuses
            then 1
            else 0)
    unfolding oom_killed_events found_uid
    with_uid-oom_killed_events u known =
        let start : Found = record { seen = []; events = [] } in
        let grows =
          Grows-trans
            (add_all-Grows u "spec.initContainers" pod.init_containers pod.init_container_statuses
              start known.0)
            (add_all-Grows u "spec.containers" pod.containers pod.container_statuses _ known.1) in
        ground (arith, grows.finds, (grows.counts tt refl).1)
