-- ===== src/EventPusher/Fifo/Runs.antt =====
-- Any sequence of acts of internal/eventpusher/eventpusher.go.
use kigeon.Prelude.{
  ◌≡◌, refl, ap, ◌∙◌, false, Option, none, some, List, [], ◌∷◌, ◌++◌, Holds, Holds-if, Holds-some,
  Holds-map,
}
use mathlib.Core.List.{append_assoc}
use kigeon.Kubernetes.{Event}
use kigeon.EventPusher.{EventPusher, Options, new_event_pusher, Act, perform, act, then_run, run}
use kigeon.EventPusher.Fifo.{
  Advances, IsSound, handed, stays, perform-Advances, sent_by, sent_by_all,
}

-- the acts one after the other
Advances-trans :
    (l m : List Event) (ep ep' ep'' : EventPusher)
    → (ep''.is_panicked ≡ false → ep'.is_panicked ≡ false)
    → Advances l ep ep'
    → Advances m ep' ep''
    → Advances (l ++ m) ep ep''
Advances-trans l m ep ep' ep'' live a b = record {
  sound = λ s. b.sound (a.sound s);
  fifo = λ p. b.fifo p ∙ ap (λ k. k ++ m) (a.fifo (live p)) ∙ append_assoc (handed ep) l m;
  late = λ p. ((b.late (a.late p).0).0, (b.late (a.late p).0).1 ∙ (a.late p).1);
}

abbrev Runs : List Event → EventPusher → EventPusher → Type 0
Runs l ep ep' = Advances l ep ep' × (ep'.is_panicked ≡ false → ep.is_panicked ≡ false)

act-Runs : (a : Act) (ep : EventPusher) → Holds (Runs (sent_by a) ep) (act a ep)
unfolding act
act-Runs a ep =
    Holds-if (Runs (sent_by a) ep) ep.is_panicked none (perform a ep) (λ h. tt)
      (λ h.
        Holds-map _ _ (perform a ep) (λ ep' advances. (advances, λ p. h)) (perform-Advances a ep))

then_run-Runs :
    (l m : List Event) (more : EventPusher → Option EventPusher) (ep : EventPusher)
    (o : Option EventPusher)
    → Holds (Runs l ep) o
    → ((ep' : EventPusher) → Holds (Runs m ep') (more ep'))
    → Holds (Runs (l ++ m) ep) (then_run more o)
unfolding then_run
then_run-Runs l m more ep none h f = tt
then_run-Runs l m more ep (some ep') h f =
    Holds-map _ _ (more ep')
      (λ ep'' k. (Advances-trans l m ep ep' ep'' k.1 h.0 k.0, λ p. h.1 (k.1 p))) (f ep')

run-Runs : (acts : List Act) (ep : EventPusher) → Holds (Runs (sent_by_all acts) ep) (run acts ep)
unfolding run sent_by_all
run-Runs [] ep = (stays ep, λ p. p)
run-Runs (a ∷ acts) ep =
    then_run-Runs (sent_by a) (sent_by_all acts) (run acts) ep (act a ep) (act-Runs a ep)
      (run-Runs acts)

pub run-Advances :
    (acts : List Act) (ep ep' : EventPusher)
    → run acts ep ≡ some ep'
    → Advances (sent_by_all acts) ep ep'
run-Advances acts ep ep' h =
    (Holds-some (Runs (sent_by_all acts) ep) (run acts ep) ep' (run-Runs acts ep) h).0

pub new_event_pusher-IsSound : (o : Options) → IsSound (new_event_pusher o)
unfolding new_event_pusher
new_event_pusher-IsSound o = record {
  bounded = refl;
  closed_late = λ h. h;
  ended_closed = λ h. h;
  ended_empty = λ h. refl;
  panicked_closed = λ h. h;
}
