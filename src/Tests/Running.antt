-- ===== src/Tests/Running.antt =====
-- Making a Loki sender, and running it for some rounds.
use kigeon.Prelude.{◌+◌, ◌≡◌, refl, String, some, true, false, List, [], ◌∷◌, count, lookup}
use kigeon.Errors.{sentinel, no_message, not_found, ok, err}
use kigeon.Metrics.{sent, skipped, rejected}
use kigeon.Pods.Informer.{Informer, new_informer}
use kigeon.Loki.Config.{parse_config}
use kigeon.Loki.Hook.{new_hook_executor}
use kigeon.Loki.Sender.{Sender, Outside}
use kigeon.Loki.Sender.Results.{is_acked, is_failure, is_result}
use kigeon.Loki.Factory.{FactoryOptions, factory}
use kigeon.Loki.Factory.Enrichment.{IsSupplied, factory-IsSupplied}
use kigeon.Loki.Loop.{run, run_totals}
use kigeon.Tests.Data.{hook_of, config_of, rewriting, failing, plain_sender, answering, no_pods}

-- the informer before the start, and options with it
abbrev idle_informer : Informer String String
idle_informer = new_informer "" "" 0

abbrev options : FactoryOptions String String
options = record {
  pods = some idle_informer;
  get_pod = λ ns name. err (sentinel not_found);
  noop = false;
}

-- the sender of a configuration with a hook that gets pods
abbrev enriching : Sender
enriching = record {
  config = config_of (some (hook_of "skip"));
  hook = some (record no_pods { hook = hook_of "skip" });
  noop = false;
}

factory-IsSupplied_example :
    IsSupplied options idle_informer enriching
      (factory rewriting ok
        (λ variable. "")
        "loki"
        (config_of (some (hook_of "skip")))
        true
        options).1
unfolding factory parse_config new_hook_executor lookup
factory-IsSupplied_example =
    factory-IsSupplied rewriting ok (λ variable. "") "loki" (config_of (some (hook_of "skip"))) true
      options idle_informer enriching refl refl

-- Loki takes the event, has a fault, and rejects it; then there is none.
abbrev worlds : List Outside
worlds =
    answering failing 204
    ∷ answering failing 500
    ∷ answering failing 400
    ∷ record (answering failing 204) { fetched = err (sentinel no_message) }
    ∷ []

run_totals_example :
    (count (is_result sent) (run plain_sender worlds).0
        + count (is_result skipped) (run plain_sender worlds).0
        + count (is_result rejected) (run plain_sender worlds).0
        + count is_failure (run plain_sender worlds).0
      ≡ 3)
    × (count is_acked (run plain_sender worlds).0 + count is_failure (run plain_sender worlds).0
        ≡ 3)
run_totals_example = run_totals plain_sender worlds
