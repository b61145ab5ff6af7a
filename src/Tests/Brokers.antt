-- ===== src/Tests/Brokers.antt =====
-- A server that keeps its messages in a list, for the tests of Pipeline.antt. The newest message
-- comes first, and its number is that of the messages before it.
use kigeon.Prelude.{
  Bool-cases, inl, inr, ◌<◌, ◌≡◌, refl, sym, ap, ◌∙◌, ℕ, String, true, false, ◌&&◌, not, Option,
  none, some, List, [], ◌∷◌, arith, length, contains, eqb, eqb_iff, ltb, eq_iff, ◌==◌,
  if◌then◌else◌,
}
use kigeon.Errors.{sentinel, key_not_found, ok}
use kigeon.Pipeline.{Broker}
use kigeon.Pipeline.Lossless.{Keeps}
use kigeon.Pipeline.Published.{Reaches}
use kigeon.Pipeline.Once.{Numbers}
use kigeon.Pipeline.Pushed.{KeepsSubscriptions}
use kigeon.Tests.Data.{back_off}

-- a text and the services that have not acknowledged it
pub record Message : Type 0 where
  pub text : String
  pub waiting : List String

pub record Store : Type 0 where
  pub keys : List String
  pub services : List String
  pub messages : List Message

-- the names without one of them
unfoldable pub remove : String → List String → List String
remove k [] = []
remove k (j ∷ l) = let rest = remove k l in if k == j then rest else j ∷ rest

pub contains-remove :
    (k j : String) (l : List String) → contains (remove k l) j ≡ (not (k == j) && contains l j)
unfolding remove
contains-remove k j [] = ground arith
contains-remove k j (i ∷ l) =
    ground (arith, contains-remove k j l, eq_iff k j, eq_iff k i, eq_iff i j)

unfoldable pub find : List Message → String → ℕ → Option String
find [] v q = none
find (m ∷ messages) v q =
    let older = find messages v q in
    if eqb q (length messages) then (if contains m.waiting v then some m.text else none) else older

unfoldable pub acknowledge_at : List Message → String → ℕ → List Message
unfolding remove
acknowledge_at [] v q = []
acknowledge_at (m ∷ messages) v q =
    let older = acknowledge_at messages v q in
    if eqb q (length messages)
    then record m { waiting = remove v m.waiting } ∷ messages
    else m ∷ older

length-acknowledge_at :
    (messages : List Message) (v : String) (q : ℕ)
    → length (acknowledge_at messages v q) ≡ length messages
unfolding acknowledge_at
length-acknowledge_at [] v q = refl
length-acknowledge_at (m ∷ messages) v q = ground (arith, length-acknowledge_at messages v q)

find_late :
    (messages : List Message) (v : String) (q : ℕ)
    → ltb q (length messages) ≡ false
    → find messages v q ≡ none
unfolding find
find_late [] v q h = refl
find_late (m ∷ messages) v q h = ground (arith, find_late messages v q)

find-acknowledge_at :
    (messages : List Message) (u v : String) (p q : ℕ)
    → (u == v && eqb p q) ≡ false
    → find (acknowledge_at messages u p) v q ≡ find messages v q
unfolding find acknowledge_at
find-acknowledge_at [] u v p q h = refl
find-acknowledge_at (m ∷ messages) u v p q h = ground (
  arith,
  find-acknowledge_at messages u v p q h,
  contains-remove u v m.waiting,
  length-acknowledge_at messages u p,
  eqb_iff p q,
)

find-cons :
    (messages : List Message) (new : Message) (v : String) (q : ℕ) (kept : String)
    → find messages v q ≡ some kept
    → find (new ∷ messages) v q ≡ some kept
unfolding find
find-cons messages new v q kept h = ground (arith, find_late messages v q)

abbrev pub list_store : Broker Store
list_store = record {
  js = record {
    marshal = λ e. ok "event";
    get = λ s k. if contains s.keys k then none else some (sentinel key_not_found);
    publish = λ s subject text id. (
      ok false,
      record s { messages = record { text = text; waiting = s.services } ∷ s.messages },
    );
    put = λ s k. (none, record s { keys = k ∷ s.keys });
  };
  unmarshal = λ text. ok (record back_off { managed_fields = [] });
  subscribed = λ s v. contains s.services v;
  pending = λ s v q. find s.messages v q;
  ack = λ s v q. (none, record s { messages = acknowledge_at s.messages v q });
  drop = λ s v q. record s { messages = acknowledge_at s.messages v q };
}

pub list_store-Keeps : Keeps list_store
list_store-Keeps = record {
  publish = λ s subject text id v q kept h. find-cons s.messages _ v q kept h;
  put = λ s k v q. refl;
  ack = λ s u v p q h. find-acknowledge_at s.messages u v p q h;
  drop = λ s u v p q h. find-acknowledge_at s.messages u v p q h;
}

newest :
    (s : Store) (text v : String)
    → contains s.services v ≡ true
    → find (record { text = text; waiting = s.services } ∷ s.messages) v (length s.messages)
      ≡ some text
unfolding find
newest s text v h = ground (arith, eqb_iff (length s.messages) (length s.messages))

pub list_store-Reaches : Reaches list_store
list_store-Reaches = record {
  publish = λ s t subject text id h. (
    length s.messages,
    λ v subscribed.
        ap (λ a. find a.1.messages v (length s.messages)) (sym h) ∙ newest s text v subscribed,
  );
}

abbrev pub empty_store : Store
empty_store = record { keys = []; services = "loki" ∷ []; messages = [] }

pub list_store-KeepsSubscriptions : KeepsSubscriptions list_store
list_store-KeepsSubscriptions = record {
  publish = λ s subject text id v. refl;
  put = λ s k v. refl;
  ack = λ s u v p. refl;
  drop = λ s u v p. refl;
}

find_low :
    (messages : List Message) (v : String) (q : ℕ) (text : String)
    → find messages v q ≡ some text
    → q < length messages
find_low messages v q text h = elim (Bool-cases (ltb q (length messages))) [
  | inl low ↦ ground (arith, low)
  | inr late ↦ let gone = find_late messages v q late in absurd (cc)
]

find_old :
    (messages : List Message) (new : Message) (v : String) (q : ℕ)
    → q < length messages
    → find (new ∷ messages) v q ≡ find messages v q
unfolding find
find_old messages new v q h = ground arith

settled :
    (messages : List Message) (v : String) (q : ℕ) → find (acknowledge_at messages v q) v q ≡ none
unfolding find acknowledge_at
settled [] v q = refl
settled (m ∷ messages) v q = ground (
  arith,
  settled messages v q,
  contains-remove v v m.waiting,
  eq_iff v v,
  length-acknowledge_at messages v q,
)

pub list_store-Numbers : Numbers list_store (λ s. length s.messages)
list_store-Numbers = record {
  low = λ s v q text h. find_low s.messages v q text h;
  old = λ s subject text id v q h.
      find_old s.messages (record { text = text; waiting = s.services }) v q h;
  grows = λ s subject text id. omega arith;
  put = λ s k. refl;
  ack = λ s v q. length-acknowledge_at s.messages v q;
  drop = λ s v q. length-acknowledge_at s.messages v q;
  acked = λ s v q. settled s.messages v q;
  dropped = λ s v q. settled s.messages v q;
}
