-- ===== src/Main/Startup/Subscribing.antt =====
-- Which senders have subscribed in the steps of run of cmd/kigeon/main.go.
use kigeon.Prelude.{◌≡◌, refl, sym, ap, ◌∙◌, String, Option, none, some, List, [], ◌∷◌, ◌++◌}
use mathlib.Core.List.{append_assoc, append-nil}
use kigeon.Errors.{Error}
use kigeon.Main.Startup.{Action, subscribed, pusher_started, Steps, then_steps, attempt}

abbrev pub subscription : Action → List String
subscription (subscribed name) = name ∷ []
subscription _ = []

-- the names of the senders that have subscribed
abbrev pub subscriptions : List Action → List String
subscriptions [] = []
subscriptions (a ∷ actions) = subscription a ++ subscriptions actions

abbrev pub prepend : List String → Option (List String) → Option (List String)
prepend names none = none
prepend names (some more) = some (names ++ more)

-- the names of the senders that have subscribed when the event pusher starts, if it starts
abbrev pub subscribed_before_pusher : List Action → Option (List String)
subscribed_before_pusher [] = none
subscribed_before_pusher (pusher_started ∷ actions) = some []
subscribed_before_pusher (subscribed name ∷ actions) =
    prepend (name ∷ []) (subscribed_before_pusher actions)
subscribed_before_pusher (_ ∷ actions) = subscribed_before_pusher actions

-- Steps that do not start the event pusher, and in which exactly the senders of the names have
-- subscribed unless there was an error.
pub record Subscribes (names : List String) (steps : Steps) : Type 0 where
  pub quiet :
      (more : List Action)
      → subscribed_before_pusher (steps.0 ++ more)
        ≡ prepend (subscriptions steps.0) (subscribed_before_pusher more)
  pub all : steps.1 ≡ none → subscriptions steps.0 ≡ names

pub prepend-prepend :
    (m n : List String) (o : Option (List String)) → prepend m (prepend n o) ≡ prepend (m ++ n) o
prepend-prepend m n none = refl
prepend-prepend m n (some l) = ap some (sym (append_assoc m n l))

pub subscriptions-append :
    (a b : List Action) → subscriptions (a ++ b) ≡ subscriptions a ++ subscriptions b
subscriptions-append [] b = refl
subscriptions-append (x ∷ a) b =
    ap (λ l. subscription x ++ l) (subscriptions-append a b)
    ∙ sym (append_assoc (subscription x) (subscriptions a) (subscriptions b))

pub then_steps-Subscribes :
    (m n : List String) (s t : Steps)
    → Subscribes m s
    → Subscribes n t
    → Subscribes (m ++ n) (then_steps s t)
then_steps-Subscribes m n (a, some e) (b, f) p q = record {
  quiet = p.quiet;
  all = λ h. absurd (cc);
}
then_steps-Subscribes m n (a, none) (b, f) p q = record {
  quiet = λ more.
      ap subscribed_before_pusher (append_assoc a b more)
      ∙ p.quiet (b ++ more)
      ∙ ap (prepend (subscriptions a)) (q.quiet more)
      ∙ prepend-prepend (subscriptions a) (subscriptions b) (subscribed_before_pusher more)
      ∙ ap (λ l. prepend l (subscribed_before_pusher more)) (sym (subscriptions-append a b));
  all = λ h.
      subscriptions-append a b
      ∙ ap (λ l. l ++ subscriptions b) (p.all refl)
      ∙ ap (λ l. m ++ l) (q.all h);
}

pub prepend-nil : (o : Option (List String)) → o ≡ prepend [] o
prepend-nil none = refl
prepend-nil (some l) = refl

-- steps without an action
pub none-Subscribes : (o : Option Error) → Subscribes [] ([], o)
none-Subscribes o = record {
  quiet = λ more. prepend-nil (subscribed_before_pusher more);
  all = λ h. refl;
}

-- A call that may fail before its actions are done.
pub attempt-Subscribes :
    (format : String) (args : List String) (o : Option Error) (names : List String)
    (actions : List Action)
    → Subscribes names (actions, none)
    → Subscribes names (attempt format args o actions)
attempt-Subscribes format args none names actions h = h
attempt-Subscribes format args (some e) names actions h = record {
  quiet = λ more. prepend-nil (subscribed_before_pusher more);
  all = λ h. absurd (cc);
}

-- one action that does not start the pusher
pub one-Subscribes :
    (a : Action)
    → ((more : List Action)
        → subscribed_before_pusher (a ∷ more)
          ≡ prepend (subscription a) (subscribed_before_pusher more))
    → Subscribes (subscription a) (a ∷ [], none)
one-Subscribes a h = record {
  quiet = λ more.
      h more
      ∙ ap (λ l. prepend l (subscribed_before_pusher more)) (sym (append-nil (subscription a)));
  all = λ e. append-nil (subscription a);
}

pub quiet-Subscribes :
    (a : Action)
    → subscription a ≡ []
    → ((more : List Action) → subscribed_before_pusher (a ∷ more) ≡ subscribed_before_pusher more)
    → Subscribes [] (a ∷ [], none)
quiet-Subscribes a e h = record {
  quiet = λ more.
      h more
      ∙ prepend-nil (subscribed_before_pusher more)
      ∙ ap (λ l. prepend (l ++ []) (subscribed_before_pusher more)) (sym e);
  all = λ k. ap (λ l. l ++ []) e;
}
