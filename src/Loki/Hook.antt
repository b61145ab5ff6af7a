-- ===== src/Loki/Hook.antt =====
-- internal/eventsender/loki/hook.go: the Starlark hook, from the loaded script to the changed config.
pub mod Values
pub mod Laws
use kigeon.Prelude.{
  ℕ, String, Bool, ◌&&◌, Option, none, some, [], ◌∷◌, Map, lookup, ◌==◌, eqb, if◌then◌else◌, ◌*◌,
}
use kigeon.Errors.{
  Sentinel, skip, pod_not_found, not_found, Error, sentinel, errorf, wrap, is, Result, ok, err,
  wrap_err, ◌>>=◌,
}
use kigeon.Kubernetes.{Event, Pod}
use kigeon.Loki.Config.{Config, ConfigHook}
use Values.{
  GoFields, StarValue, none_type, dict, Entries, type_name, Starlark, go_map_to_starlark_dict,
  starlark_dict_to_go_map,
}

-- `PodGetter`: the pod of a namespace and a name
abbrev pub PodGetter : Type 0
PodGetter = String → String → Result Pod

-- a global of a Starlark script: a function, or a value of another type
pub data Global : Type 0 where
  function : Global
  value : String → Global

-- What the hook uses of encoding/json and of the Starlark interpreter. `call` is `starlark.Call` of
-- `transform` under a time limit in nanoseconds, which fails once the limit has passed.
pub record HookRuntime : Type 0 where
  pub starlark : Starlark
  pub exec_file : String → Result (Map Global)
  pub marshal_config : Config → Result String
  pub marshal_event : Event → Result String
  pub marshal_pod : Pod → Result String
  pub marshal_map : GoFields → Result String
  pub unmarshal_map : String → Result GoFields
  pub unmarshal_config : String → Result Config
  pub call : ℕ → Entries → Entries → Result StarValue

-- `hookExecutor`; the compiled function is the one that `call` runs
pub record HookExecutor : Type 0 where
  pub hook : ConfigHook
  pub pods : Option PodGetter

-- 100 milliseconds
abbrev pub default_hook_timeout : ℕ
default_hook_timeout = 100 * 1000000

unfoldable pub check_transform : ConfigHook → Option PodGetter → Option Global → Result HookExecutor
check_transform hook pods none =
    err (errorf "starlark hook %q must define a \"transform\" function" (hook.script ∷ []))
check_transform hook pods (some function) = ok (record { hook = hook; pods = pods })
check_transform hook pods (some (value type)) =
    err (
      errorf "starlark hook %q: \"transform\" must be a function, got %s" (hook.script ∷ type ∷ []))

-- `newHookExecutor`
unfoldable pub new_hook_executor : HookRuntime → ConfigHook → Option PodGetter → Result HookExecutor
unfolding check_transform
new_hook_executor rt hook pods = do
  globals ← wrap_err "loading starlark hook %q: %w" (hook.script ∷ []) (rt.exec_file hook.script)
  check_transform hook pods (lookup "transform" globals)

module _ (rt : HookRuntime) where
  -- `toStarlarkDict` of a value that `json.Marshal` turns into `marshaled`
  unfoldable pub to_starlark_dict : Result String → Result Entries
  to_starlark_dict marshaled = do
    text ← wrap_err "json marshal: %w" [] marshaled
    m ← wrap_err "json unmarshal to map: %w" [] (rt.unmarshal_map text)
    go_map_to_starlark_dict rt.starlark m

  -- `fromStarlarkDict[Config]`
  unfoldable pub from_starlark_dict : Entries → Result Config
  from_starlark_dict d = do
    m ← starlark_dict_to_go_map rt.starlark d
    text ← wrap_err "json marshal: %w" [] (rt.marshal_map m)
    wrap_err "json unmarshal: %w" [] (rt.unmarshal_config text)

  -- the last part of `enrichPod`: the event's dict with the pod
  unfoldable pub add_pod : Entries → String → String → Result Pod → Result Entries
  add_pod event_dict namespace name (err e) =
      if is e not_found
      then err (sentinel pod_not_found)
      else err (wrap "getting pod %s/%s: %w" (namespace ∷ name ∷ []) e)
  add_pod event_dict namespace name (ok pod) = do
    pod_dict ← wrap_err "converting pod to starlark: %w" [] (to_starlark_dict (rt.marshal_pod pod))
    rt.starlark.set_key event_dict "pod" (dict pod_dict)

  -- `enrichPod`
  unfoldable pub enrich_pod : Option PodGetter → Entries → String → String → Result Entries
  unfolding add_pod
  enrich_pod none event_dict namespace name = err (errorf "pod enrichment is not available" [])
  enrich_pod (some get_pod) event_dict namespace name =
      add_pod event_dict namespace name (get_pod namespace name)

  -- what `execute` makes of the result of `enrichPod`
  unfoldable pub enriched : HookExecutor → Entries → Result Entries → Result Entries
  enriched h event_dict (ok d) = ok d
  enriched h event_dict (err e) =
      if is e pod_not_found && h.hook.skip_on_pod_not_found
      then err (sentinel skip)
      else ok event_dict

  -- the step of `execute` that puts the pod into the event's dict
  unfoldable pub with_pod : HookExecutor → Event → Entries → Result Entries
  unfolding enriched
  with_pod h event event_dict =
      if h.hook.enrich_pod && event.involved_object.kind == "Pod"
      then enriched h event_dict
          (enrich_pod h.pods event_dict event.involved_object.namespace event.involved_object.name)
      else ok event_dict

  -- the config that `execute` makes of the script's result
  unfoldable pub result_config : Config → StarValue → Result Config
  result_config cfg none_type = err (sentinel skip)
  result_config cfg (dict d) = do
    c ← wrap_err "converting starlark result to config: %w" [] (from_starlark_dict d)
    ok (record c { hook = cfg.hook })
  result_config cfg v = err (errorf "starlark hook must return a dict, got %s" (type_name v ∷ []))

  -- `execute`
  unfoldable pub execute : HookExecutor → Config → Event → Result Config
  execute h cfg event = do
    let timeout = if eqb h.hook.timeout 0 then default_hook_timeout else h.hook.timeout
    config_dict ←
        wrap_err "converting config to starlark: %w" [] (to_starlark_dict (rt.marshal_config cfg))
    event_dict ←
        wrap_err "converting event to starlark: %w" [] (to_starlark_dict (rt.marshal_event event))
    event_dict' ← with_pod h event event_dict
    result ←
        wrap_err "starlark hook execution failed: %w" [] (rt.call timeout config_dict event_dict')
    result_config cfg result
