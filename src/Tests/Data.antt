-- ===== src/Tests/Data.antt =====
-- An event, configurations, and the outside of a sender that the tests share.
use kigeon.Prelude.{ℕ, String, refl, Option, none, some, [], ◌∷◌, pos, true, false}
use kigeon.Errors.{errorf, sentinel, not_found, ok, err}
use kigeon.Kubernetes.{ObjectReference, Event}
use kigeon.Loki.Config.{Config, ConfigHook}
use kigeon.Loki.Hook.Values.{Starlark, dict, end, no_entry, add_entry}
use kigeon.Loki.Hook.{HookRuntime, HookExecutor, function}
use kigeon.Loki.Sender.{Sender, Outside}

abbrev pub web_pod : ObjectReference
web_pod = record {
  kind = "Pod";
  api_version = "v1";
  namespace = "shop";
  name = "web-0";
  uid = "p1";
  field_path = "";
}

abbrev pub back_off : Event
back_off = record {
  name = "web-0.17a";
  namespace = "shop";
  uid = "4f-2a";
  resource_version = "7";
  managed_fields = "kubelet" ∷ [];
  involved_object = web_pod;
  reason = "BackOff";
  message = "Back-off restarting failed container";
  type = "Warning";
  count = pos 3;
  source = record { component = "kubelet"; host = "" };
  event_time = 0;
  first_timestamp = 5;
  last_timestamp = 62135596800000000007;
  reporting_controller = "kubelet";
}

abbrev pub hook_of : String → ConfigHook
hook_of on_error = record {
  script = "hook.star";
  timeout = 0;
  on_error = on_error;
  enrich_pod = true;
  skip_on_pod_not_found = true;
}

abbrev pub config_of : Option ConfigHook → Config
config_of hook = record {
  url = "http://loki:3100";
  tenant_id = "";
  basic_auth = none;
  tls = none;
  stream_labels = ("app", "kigeon") ∷ ("type", "event") ∷ [];
  message = "";
  hook = hook;
}

abbrev pub insertion_dicts : Starlark
insertion_dicts = record {
  set_key = λ d k v. ok (add_entry d k v);
  to_int64 = λ n. some n;
  set_key_new = λ d k v h. refl;
}

-- a script that returns an empty dict, which is read as a config for another tenant
abbrev pub rewriting : HookRuntime
rewriting = record {
  starlark = insertion_dicts;
  exec_file = λ path. ok (("transform", function) ∷ []);
  marshal_config = λ c. ok "{}";
  marshal_event = λ e. ok "{}";
  marshal_pod = λ p. ok "{}";
  marshal_map = λ m. ok "{}";
  unmarshal_map = λ t. ok end;
  unmarshal_config = λ t. ok (record (config_of none) { tenant_id = "team-a" });
  call = λ limit c e. ok (dict no_entry);
}

-- the same with a script that fails
abbrev pub failing : HookRuntime
failing = record rewriting { call = λ limit c e. err (errorf "division by zero" []) }

abbrev pub no_pods : HookExecutor
no_pods = record { hook = hook_of ""; pods = some (λ ns name. err (sentinel not_found)) }

abbrev pub pod_agnostic : HookExecutor
pod_agnostic = record { hook = record (hook_of "") { enrich_pod = false }; pods = none }

abbrev pub plain_sender : Sender
plain_sender = record { config = config_of none; hook = none; noop = false }

abbrev pub hooked_sender : String → Sender
hooked_sender on_error = record {
  config = config_of (some (hook_of on_error));
  hook = some pod_agnostic;
  noop = false;
}

-- Loki answers every request with the status `code`
abbrev pub answering : HookRuntime → ℕ → Outside
answering hooks code = record {
  fetched = ok back_off;
  ack = none;
  now = 9;
  hooks = hooks;
  marshal_message = λ m. ok "line";
  marshal_payload = λ p. ok "payload";
  new_request = λ u. none;
  post = λ r. ok (record { status_code = code; body = "" });
}
