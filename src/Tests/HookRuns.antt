-- ===== src/Tests/HookRuns.antt =====
-- The hook, and the conversion of values into Starlark and back (Loki/Hook.antt).
use kigeon.Prelude.{◌≡◌, refl, some, true}
use kigeon.Errors.{ok, ◌>>=◌}
use kigeon.Loki.Config.{Config}
use kigeon.Loki.Hook.Values.{
  null, bool, float64, string, slice, go_map, nil, cons, GoFields, end, field, go_value_to_starlark,
  go_map_to_starlark_dict, starlark_value_to_go, starlark_dict_to_go_map,
}
use kigeon.Loki.Hook.Values.RoundTrip.{starlark_value_to_go-go_value_to_starlark}
use kigeon.Loki.Hook.{execute, with_pod, result_config, from_starlark_dict, to_starlark_dict}
use kigeon.Loki.Hook.Laws.{execute-keeps-hook}
use kigeon.Tests.Data.{back_off, config_of, hook_of, insertion_dicts, rewriting, pod_agnostic}

abbrev nested : GoFields
nested =
    field "count" (float64 7)
      (field "tags" (slice (cons (string "a") (cons null nil))) (field "ok" (bool true) end))

starlark_value_to_go-go_value_to_starlark_example :
    (go_value_to_starlark insertion_dicts (go_map nested) >>= starlark_value_to_go insertion_dicts)
    ≡ ok (go_map nested)
starlark_value_to_go-go_value_to_starlark_example =
    starlark_value_to_go-go_value_to_starlark insertion_dicts (go_map nested)
      ((refl, (refl, (refl, tt))), (tt, ((tt, (tt, tt)), (tt, tt))))

abbrev rewritten : Config
rewritten = record (config_of (some (hook_of "fail"))) { tenant_id = "team-a" }

rewrite_runs :
    execute rewriting pod_agnostic (config_of (some (hook_of "fail"))) back_off ≡ ok rewritten
unfolding execute with_pod result_config from_starlark_dict to_starlark_dict go_map_to_starlark_dict
    starlark_dict_to_go_map go_value_to_starlark
rewrite_runs = refl

execute-keeps-hook_example : rewritten.hook ≡ some (hook_of "fail")
execute-keeps-hook_example =
    execute-keeps-hook rewriting pod_agnostic (config_of (some (hook_of "fail"))) back_off rewritten
      rewrite_runs
