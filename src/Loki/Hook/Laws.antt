-- ===== src/Loki/Hook/Laws.antt =====
-- What `execute` guarantees whatever the script does.
use kigeon.Prelude.{◌≡◌, arith}
use kigeon.Errors.{Result, ok, err, ◌>>=◌}
use kigeon.Kubernetes.{Event}
use kigeon.Loki.Config.{Config}
use kigeon.Loki.Hook.Values.{StarValue, none_type, dict}
use kigeon.Loki.Hook.{HookRuntime, HookExecutor, result_config, execute}

bind-ok :
    {A B : Type 0} (m : Result A) (f : A → Result B) {b : B}
    → (m >>= f) ≡ ok b
    → (a : A) × (f a ≡ ok b)
bind-ok (ok a) f h = (a, h)
bind-ok (err e) f h = cc

module _ (rt : HookRuntime) where
  result_config-hook :
      (cfg : Config) (v : StarValue) (c : Config)
      → result_config rt cfg v ≡ ok c
      → c.hook ≡ cfg.hook
  unfolding result_config
  result_config-hook cfg none_type c h = cc
  result_config-hook cfg (dict d) c h = ground arith
  result_config-hook cfg _ c h = cc

  -- If the hook gives a config, its hook settings are those of the config that it was given,
  -- whatever the script, the conversions and the pods are.
  pub execute-keeps-hook :
      (h : HookExecutor) (cfg : Config) (event : Event) (c : Config)
      → execute rt h cfg event ≡ ok c
      → c.hook ≡ cfg.hook
  unfolding execute
  execute-keeps-hook h cfg event c e = grind (arith, result_config-hook)
