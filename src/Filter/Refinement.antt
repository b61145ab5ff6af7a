-- ===== src/Filter/Refinement.antt =====
-- The filter refines a view of the cluster: the last known labels of each namespace.
use kigeon.Prelude.{
  ◌≡◌, refl, ap, ◌∙◌, String, Bool, true, false, Option, none, some, List, [], ◌∷◌, arith, Map,
  lookup, insert, delete, lookup-insert, lookup-delete, eq_iff, ◌==◌, if◌then◌else◌,
}
use kigeon.Kubernetes.{ObjectReference}
use kigeon.Filter.{
  Namespace, namespace, tombstone, DynamicNamespaceFilterConfig, DynamicNamespaceFilter,
  new_dynamic_namespace_filter, add_namespace, remove_namespace, handle_namespace_change,
  Notification, added, updated, deleted, notify, notify_all, is_allowed, is_allowed_for_object,
}

-- The cluster as the notifications tell it.
abbrev pub Cluster : Type 0
Cluster = Map (Map String)

abbrev pub see : Cluster → Notification → Cluster
see c (added (namespace ns)) = insert ns.name ns.labels c
see c (updated old (namespace ns)) = insert ns.name ns.labels c
see c (deleted (namespace ns)) = delete ns.name c
see c (deleted (tombstone (namespace ns))) = delete ns.name c
see c _ = c

abbrev pub see_all : Cluster → List Notification → Cluster
see_all c [] = c
see_all c (n ∷ l) = see_all (see c n) l

-- a namespace that is there, with labels that the selector matches
abbrev pub matches : (Map String → Bool) → Option (Map String) → Bool
matches selector none = false
matches selector (some labels) = selector labels

module _ (f : DynamicNamespaceFilter) where
  is_allowed-add_namespace :
      (n k : String) → is_allowed (add_namespace f n) k ≡ (if n == k then true else is_allowed f k)
  unfolding is_allowed add_namespace
  is_allowed-add_namespace n k =
      ground (arith, lookup-insert n k tt f.allowed_namespaces, eq_iff n k)

  is_allowed-remove_namespace :
      (n k : String)
      → is_allowed (remove_namespace f n) k ≡ (if n == k then false else is_allowed f k)
  unfolding is_allowed remove_namespace
  is_allowed-remove_namespace n k =
      ground (arith, lookup-delete n k f.allowed_namespaces, eq_iff n k)

  is_allowed-handle_namespace_change :
      (ns : Namespace) (k : String)
      → is_allowed (handle_namespace_change f ns) k
        ≡ (if ns.name == k then f.config.label_selector ns.labels else is_allowed f k)
  unfolding handle_namespace_change
  is_allowed-handle_namespace_change ns k =
      ground (arith, is_allowed-add_namespace ns.name k, is_allowed-remove_namespace ns.name k)

  config-notify : (n : Notification) → (notify f n).config ≡ f.config
  unfolding notify add_namespace
  config-notify n = ground arith

-- The filter allows exactly the namespaces that the cluster has and the selector matches.
abbrev Agrees : DynamicNamespaceFilter → Cluster → Type 0
Agrees f c = (k : String) → is_allowed f k ≡ matches f.config.label_selector (lookup k c)

module _ (f : DynamicNamespaceFilter) (c : Cluster) (h : Agrees f c) where
  change-Agrees :
      (ns : Namespace) (k : String)
      → is_allowed (handle_namespace_change f ns) k
        ≡ matches f.config.label_selector (lookup k (insert ns.name ns.labels c))
  change-Agrees ns k =
      ground
        (arith, is_allowed-handle_namespace_change f ns k, lookup-insert ns.name k ns.labels c, h k)

  removal-Agrees :
      (name k : String)
      → is_allowed (remove_namespace f name) k
        ≡ matches f.config.label_selector (lookup k (delete name c))
  removal-Agrees name k =
      ground (arith, is_allowed-remove_namespace f name k, lookup-delete name k c, h k)

  notify-Agrees :
      (n : Notification) (k : String)
      → is_allowed (notify f n) k ≡ matches f.config.label_selector (lookup k (see c n))
  unfolding notify
  notify-Agrees (added (namespace ns)) k = change-Agrees ns k
  notify-Agrees (updated old (namespace ns)) k = change-Agrees ns k
  notify-Agrees (deleted (namespace ns)) k = removal-Agrees ns.name k
  notify-Agrees (deleted (tombstone (namespace ns))) k = removal-Agrees ns.name k
  notify-Agrees _ k = h k

  step-Agrees : (n : Notification) → Agrees (notify f n) (see c n)
  step-Agrees n k = simp config-notify (notify-Agrees n k)

notify_all-Agrees :
    (f : DynamicNamespaceFilter) (c : Cluster) (l : List Notification)
    → Agrees f c
    → Agrees (notify_all f l) (see_all c l)
unfolding notify_all
notify_all-Agrees f c [] h = h
notify_all-Agrees f c (n ∷ l) h = notify_all-Agrees (notify f n) (see c n) l (step-Agrees f c h n)

config-notify_all :
    (f : DynamicNamespaceFilter) (l : List Notification) → (notify_all f l).config ≡ f.config
unfolding notify_all
config-notify_all f [] = refl
config-notify_all f (n ∷ l) = config-notify_all (notify f n) l ∙ config-notify f n

module _ (cfg : DynamicNamespaceFilterConfig) (l : List Notification) where
  new-Agrees : Agrees (new_dynamic_namespace_filter cfg) []
  unfolding is_allowed new_dynamic_namespace_filter lookup
  new-Agrees k = refl

  is_allowed-notify_all :
      (k : String)
      → is_allowed (notify_all (new_dynamic_namespace_filter cfg) l) k
        ≡ matches cfg.label_selector (lookup k (see_all [] l))
  unfolding new_dynamic_namespace_filter
  is_allowed-notify_all k =
      notify_all-Agrees (new_dynamic_namespace_filter cfg) [] l new-Agrees k
      ∙ ap
          (λ (x : DynamicNamespaceFilterConfig). matches x.label_selector (lookup k (see_all [] l)))
          (config-notify_all (new_dynamic_namespace_filter cfg) l)

  -- After any sequence of notifications, tombstones and foreign objects included, a new filter
  -- lets an object in a namespace pass exactly if the last notification about the namespace was no
  -- deletion and gave it labels that the selector matches; an object without a namespace passes
  -- exactly if the configuration says so.
  pub is_allowed_for_object-notify_all :
      (obj : ObjectReference)
      → is_allowed_for_object (notify_all (new_dynamic_namespace_filter cfg) l) obj ≡ (
          if obj.namespace == ""
          then cfg.include_non_namespaced
          else matches cfg.label_selector (lookup obj.namespace (see_all [] l)))
  unfolding is_allowed_for_object
  is_allowed_for_object-notify_all obj =
      simp (is_allowed-notify_all, config-notify_all) (unfold new_dynamic_namespace_filter in refl)
