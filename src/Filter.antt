-- ===== src/Filter.antt =====
-- internal/filter/namespace_filter.go: the namespaces that a label selector matches, kept up to date
-- by the notifications of an informer. The lock makes each handler one step.
pub mod Refinement
pub mod Lifecycle
use kigeon.Prelude.{
  ℕ, ◌*◌, String, Bool, Option, none, some, List, [], ◌∷◌, Map, lookup, insert, delete, ◌==◌,
  if◌then◌else◌, is_some,
}
use kigeon.Kubernetes.{ObjectReference}

-- `corev1.Namespace`
pub record Namespace : Type 0 where
  pub name : String
  pub labels : Map String

-- What an informer passes to a handler: a namespace, a `DeletedFinalStateUnknown` around an object,
-- or something else.
pub data Object : Type 0 where
  namespace : Namespace → Object
  tombstone : Object → Object
  other : Object

-- `DynamicNamespaceFilterConfig`; the selector is the function `Matches` of `labels.Selector`.
pub record DynamicNamespaceFilterConfig : Type 0 where
  pub label_selector : Map String → Bool
  pub include_non_namespaced : Bool
  pub hard_refresh_interval : Option ℕ

-- `DynamicNamespaceFilter`; `refresh_interval` is what its informer factory is made with
pub record DynamicNamespaceFilter : Type 0 where
  pub config : DynamicNamespaceFilterConfig
  pub refresh_interval : ℕ
  pub allowed_namespaces : Map (Unit {0})

-- 4 hours, in nanoseconds
abbrev pub default_hard_refresh_interval : ℕ
default_hard_refresh_interval = 4 * 3600 * 1000000000

-- `NewDynamicNamespaceFilter`
unfoldable pub new_dynamic_namespace_filter : DynamicNamespaceFilterConfig → DynamicNamespaceFilter
new_dynamic_namespace_filter cfg = record {
  config = cfg;
  refresh_interval = elim cfg.hard_refresh_interval [
    | none ↦ default_hard_refresh_interval
    | some interval ↦ interval
  ];
  allowed_namespaces = [];
}

-- `addNamespace`
unfoldable pub add_namespace : DynamicNamespaceFilter → String → DynamicNamespaceFilter
add_namespace f name =
    if is_some (lookup name f.allowed_namespaces)
    then f
    else record f { allowed_namespaces = insert name tt f.allowed_namespaces }

-- `removeNamespace`
unfoldable pub remove_namespace : DynamicNamespaceFilter → String → DynamicNamespaceFilter
remove_namespace f name =
    if is_some (lookup name f.allowed_namespaces)
    then record f { allowed_namespaces = delete name f.allowed_namespaces }
    else f

-- `handleNamespaceChange`
unfoldable pub handle_namespace_change : DynamicNamespaceFilter → Namespace → DynamicNamespaceFilter
unfolding add_namespace remove_namespace
handle_namespace_change f ns =
    if f.config.label_selector ns.labels
    then add_namespace f ns.name
    else remove_namespace f ns.name

-- the handlers for added and updated objects
unfoldable pub handle_object : DynamicNamespaceFilter → Object → DynamicNamespaceFilter
unfolding handle_namespace_change
handle_object f (namespace ns) = handle_namespace_change f ns
handle_object f (tombstone o) = f
handle_object f other = f

-- `handleNamespaceDelete`
unfoldable pub handle_namespace_delete : DynamicNamespaceFilter → Object → DynamicNamespaceFilter
unfolding remove_namespace
handle_namespace_delete f (namespace ns) = remove_namespace f ns.name
handle_namespace_delete f (tombstone (namespace ns)) = remove_namespace f ns.name
handle_namespace_delete f (tombstone (tombstone o)) = f
handle_namespace_delete f (tombstone other) = f
handle_namespace_delete f other = f

-- What the informer calls, in the order of its calls.
pub data Notification : Type 0 where
  added : Object → Notification
  updated : Object → Object → Notification
  deleted : Object → Notification

unfoldable pub notify : DynamicNamespaceFilter → Notification → DynamicNamespaceFilter
unfolding handle_object handle_namespace_delete
notify f (added o) = handle_object f o
notify f (updated old new) = handle_object f new
notify f (deleted o) = handle_namespace_delete f o

unfoldable pub notify_all : DynamicNamespaceFilter → List Notification → DynamicNamespaceFilter
unfolding notify
notify_all f [] = f
notify_all f (n ∷ l) = notify_all (notify f n) l

-- `IsAllowed`
unfoldable pub is_allowed : DynamicNamespaceFilter → String → Bool
is_allowed f name = is_some (lookup name f.allowed_namespaces)

-- `IsAllowedForObject`
unfoldable pub is_allowed_for_object : DynamicNamespaceFilter → ObjectReference → Bool
unfolding is_allowed
is_allowed_for_object f obj =
    if obj.namespace == "" then f.config.include_non_namespaced else is_allowed f obj.namespace
