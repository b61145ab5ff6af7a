-- ===== src/Config/WellFormed.antt =====
-- What `Validate` of internal/config/validation.go accepts, described by itself.
use kigeon.Prelude.{
  ◌≡◌, ◌↔◌, ◌∙◌, subst, refl, ℕ, suc, String, Bool, true, false, not, ◌&&◌, Option, none, some,
  List, [], ◌∷◌, ◌++◌, arith, ◌==◌, eq_iff, contains, concat,
}
use kigeon.Config.{Config, GlobalConfig, QueueConfig, EventSenderConfig, FilterConfig, is_negative}
use kigeon.Config.Validation.{
  ValidationError, report, validate, validate_global, validate_queue, validate_event_senders,
  validate_each, validate_name, validate_filter, add_name,
}

-- a list of errors without an entry
abbrev is_clean : List ValidationError → Bool
is_clean [] = true
is_clean (e ∷ l) = false

is_clean_iff : (l : List ValidationError) → (l ≡ []) ↔ (is_clean l ≡ true)
is_clean_iff [] = ground arith
is_clean_iff (e ∷ l) = ground arith

is_clean-append : (l r : List ValidationError) → is_clean (l ++ r) ≡ (is_clean l && is_clean r)
is_clean-append [] r = refl
is_clean-append (e ∷ l) r = refl

is_clean-report : (b : Bool) (f m : String) (a : List String) → is_clean (report b f m a) ≡ not b
is_clean-report true f m a = refl
is_clean-report false f m a = refl

-- no name is empty, and none stands twice
unfoldable pub are_names : List String → Bool
are_names [] = true
are_names (name ∷ names) = not (name == "") && not (contains names name) && are_names names

unfoldable pub is_filter : Option FilterConfig → Bool
is_filter none = true
is_filter (some f) = not (is_negative f.hard_refresh_interval)

unfoldable pub are_senders : List EventSenderConfig → Bool
unfolding is_filter
are_senders [] = true
are_senders (s ∷ l) = not (s.type == "") && is_filter s.filter && are_senders l

abbrev names_of : List EventSenderConfig → List String
names_of [] = []
names_of (s ∷ l) = s.name ∷ names_of l

abbrev is_some_sender : List EventSenderConfig → Bool
is_some_sender [] = false
is_some_sender (s ∷ l) = true

abbrev is_global : GlobalConfig → Bool
is_global g =
    not (g.data_dir == "")
    && (contains ("" ∷ "debug" ∷ "info" ∷ "warn" ∷ "error" ∷ []) g.log_level
        && contains ("" ∷ "json" ∷ "text" ∷ []) g.log_format)

abbrev is_queue : QueueConfig → Bool
is_queue q = not (is_negative q.events_max_age) && not (is_negative q.events_max_bytes)

-- what `Validate` checks of a configuration
unfoldable pub is_well_formed : Config → Bool
unfolding are_names are_senders
is_well_formed c =
    is_global c.global
    && (is_queue c.queue
        && (not (is_negative c.pods.deleted_pod_retention)
            && (is_some_sender c.event_senders
                && are_names (names_of c.event_senders)
                && are_senders c.event_senders)))

-- no name stands among those that were seen
unfoldable are_new : List String → List String → Bool
are_new seen [] = true
are_new seen (name ∷ names) = not (contains seen name) && are_new seen names

are_new-cons :
    (name : String) (seen names : List String)
    → are_new (name ∷ seen) names ≡ (not (contains names name) && are_new seen names)
unfolding are_new
are_new-cons name seen [] = refl
are_new-cons name seen (other ∷ names) =
    ground (arith, are_new-cons name seen names, eq_iff name other, eq_iff other name)

are_new-empty : (names : List String) → are_new [] names ≡ true
unfolding are_new
are_new-empty [] = refl
are_new-empty (name ∷ names) = are_new-empty names

is_clean-validate_name :
    (names : List String) (prefix name : String)
    → is_clean (validate_name names prefix name) ≡ (not (name == "") && not (contains names name))
unfolding validate_name
is_clean-validate_name names prefix name = ground (
  arith,
  is_clean-report (contains names name) (concat (prefix ∷ ".name" ∷ [])) "duplicate sender name %q"
      (name ∷ []),
)

is_clean-validate_filter :
    (prefix : String) (f : Option FilterConfig) → is_clean (validate_filter prefix f) ≡ is_filter f
unfolding validate_filter is_filter
is_clean-validate_filter prefix none = refl
is_clean-validate_filter prefix (some f) = is_clean-report _ _ _ _

add_name-new :
    (names : List String) (name : String)
    → (name == "") ≡ false
    → contains names name ≡ false
    → add_name names name ≡ name ∷ names
unfolding add_name
add_name-new names name h k = simp (h, k)

is_clean-step :
    (seen : List String) (i : ℕ) (s : EventSenderConfig) (l : List EventSenderConfig)
    → is_clean (validate_each seen i (s ∷ l)) ≡ (
        (not (s.name == "") && not (contains seen s.name))
        && (not (s.type == "")
            && (is_filter s.filter && is_clean (validate_each (add_name seen s.name) (suc i) l))))
unfolding validate_each
is_clean-step seen i s l =
    simp (is_clean-append, is_clean-report, is_clean-validate_name, is_clean-validate_filter)

is_clean-validate_each :
    (seen : List String) (i : ℕ) (l : List EventSenderConfig)
    → is_clean (validate_each seen i l)
      ≡ (are_new seen (names_of l) && are_names (names_of l) && are_senders l)
unfolding validate_each are_new are_names are_senders
is_clean-validate_each seen i [] = refl
is_clean-validate_each seen i (s ∷ l) =
    is_clean-step seen i s l
    ∙ ground (
      arith,
      add_name-new seen s.name,
      is_clean-validate_each (add_name seen s.name) (suc i) l,
      are_new-cons s.name seen (names_of l),
    )

both : {a b c d : Bool} → a ≡ b → c ≡ d → (a && c) ≡ (b && d)
both e f = simp (e, f)

one_of :
    (s : String) (l : List String) → not (not (s == "") && not (contains l s)) ≡ contains ("" ∷ l) s
one_of s l = ground (arith, eq_iff s "", eq_iff "" s)

is_clean-validate_global : (g : GlobalConfig) → is_clean (validate_global g) ≡ is_global g
unfolding validate_global
is_clean-validate_global g = simp (is_clean-append, is_clean-report, one_of)

is_clean-validate_queue : (q : QueueConfig) → is_clean (validate_queue q) ≡ is_queue q
unfolding validate_queue
is_clean-validate_queue q = simp (is_clean-append, is_clean-report)

is_clean-validate_event_senders :
    (l : List EventSenderConfig)
    → is_clean (validate_event_senders l)
      ≡ (is_some_sender l && are_names (names_of l) && are_senders l)
unfolding validate_event_senders
is_clean-validate_event_senders [] = refl
is_clean-validate_event_senders (s ∷ l) =
    ground (arith, is_clean-validate_each [] 0 (s ∷ l), are_new-empty (names_of (s ∷ l)))

is_clean-validate : (c : Config) → is_clean (validate c) ≡ is_well_formed c
unfolding validate is_well_formed
is_clean-validate c =
    let retention =
      report (is_negative c.pods.deleted_pod_retention) "pods.deletedPodRetention"
        "deleted pod retention cannot be negative" [] in
    is_clean-append (validate_global c.global)
      (validate_queue c.queue ++ (retention ++ validate_event_senders c.event_senders))
    ∙ both (is_clean-validate_global c.global) (
        is_clean-append (validate_queue c.queue)
          (retention ++ validate_event_senders c.event_senders)
        ∙ both (is_clean-validate_queue c.queue) (
            is_clean-append retention (validate_event_senders c.event_senders)
            ∙ both
                (is_clean-report (is_negative c.pods.deleted_pod_retention)
                  "pods.deletedPodRetention" "deleted pod retention cannot be negative" [])
                (is_clean-validate_event_senders c.event_senders)))

-- `Validate` accepts a configuration exactly if the data directory is set; the log level is empty or
-- one of `debug`, `info`, `warn` and `error`, and the log format empty or one of `json` and `text`;
-- the maximal age and bytes of the events, the retention of deleted pods and the refresh intervals
-- of the filters are not negative; and there is a sender, and the senders have types, and names that
-- are set and differ. The other fields may have any value; so a negative `pushTimeout` or
-- `kubernetesEventsMaxLifetime` is accepted.
pub validate_iff : (c : Config) → (validate c ≡ []) ↔ (is_well_formed c ≡ true)
validate_iff c =
    subst (λ b. (validate c ≡ []) ↔ (b ≡ true)) (is_clean-validate c) (is_clean_iff (validate c))
