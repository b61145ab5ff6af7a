-- ===== src/EventQueue/Consumers.antt =====
-- `PruneConsumers`: deleting the subscriptions of services that no longer exist.
use kigeon.Prelude.{
  ◌≡◌, refl, String, true, false, not, ◌&&◌, Option, none, some, List, [], ◌∷◌, arith, ◌==◌, eq_iff,
  if◌then◌else◌, contains, inl, inr, Option-cases,
}
use kigeon.Errors.{Error, wrap}

-- What `PruneConsumers` uses of the stream, over the state `S` of the server: the names of its
-- consumers with the error that ends the listing, and `DeleteConsumer`.
pub record Stream (S : Type 0) : Type 0 where
  pub consumer_names : S → List String × Option Error
  pub delete_consumer : S → String → Option Error × S

-- the names that are not to be kept, in the order of the listing
unfoldable pub stale_names : List String → List String → List String
stale_names services [] = []
stale_names services (name ∷ names) =
    let rest = stale_names services names in if contains services name then rest else name ∷ rest

contains-stale_names :
    (services names : List String) (k : String)
    → contains (stale_names services names) k ≡ (contains names k && not (contains services k))
unfolding stale_names
contains-stale_names services [] k = refl
contains-stale_names services (name ∷ names) k =
    ground (arith, contains-stale_names services names k, eq_iff name k)

module _ {S : Type 0} (js : Stream S) where
  unfoldable pub delete_next : String → (S → Option Error × S) → Option Error × S → Option Error × S
  delete_next name more (some e, s) =
      (some (wrap "failed to delete consumer %s: %w" (name ∷ []) e), s)
  delete_next name more (none, s) = more s

  -- the loop over the stale names, which ends at the first failure
  unfoldable pub delete_all : List String → S → Option Error × S
  unfolding delete_next
  delete_all [] s = (none, s)
  delete_all (name ∷ names) s = delete_next name (delete_all names) (js.delete_consumer s name)

  -- `PruneConsumers`
  unfoldable pub prune_consumers : List String → S → Option Error × S
  unfolding stale_names delete_all
  prune_consumers services s = elim (js.consumer_names s).1 [
    | some e ↦ (some (wrap "failed to list consumers: %w" [] e), s)
    | none ↦ delete_all (stale_names services (js.consumer_names s).0) s
  ]

  -- `DeleteConsumer` deletes the consumer that it names if it succeeds, and no other also if it
  -- fails, when the one that it names may be deleted or not.
  pub record DeletesOne : Type 0 where
    pub deleted :
        (s : S) (name k : String)
        → (js.delete_consumer s name).0 ≡ none
        → contains (js.consumer_names (js.delete_consumer s name).1).0 k
          ≡ (not (name == k) && contains (js.consumer_names s).0 k)
    pub failed :
        (s : S) (name k : String) (e : Error)
        → (js.delete_consumer s name).0 ≡ some e
        → (name == k) ≡ false
        → contains (js.consumer_names (js.delete_consumer s name).1).0 k
          ≡ contains (js.consumer_names s).0 k

  module _ (d : DeletesOne) where
    -- After the loop has succeeded exactly the names that it was given are gone.
    contains-delete_all :
        (names : List String) (s : S) (k : String)
        → (delete_all names s).0 ≡ none
        → contains (js.consumer_names (delete_all names s).1).0 k
          ≡ (not (contains names k) && contains (js.consumer_names s).0 k)
    unfolding delete_all
    contains-delete_all [] s k h = refl
    contains-delete_all (name ∷ names) s k h =
        let s' = (js.delete_consumer s name).1 in
        elim (Option-cases (js.delete_consumer s name).0) [
          | inl done ↦ ground (arith, done, d.deleted s name k done, contains-delete_all names s' k)
          | inr (e, broken) ↦ ground arith
        ]

    -- The loop deletes no consumer but those that it was given, also if it fails.
    keeps-delete_all :
        (names : List String) (s : S) (k : String)
        → contains names k ≡ false
        → contains (js.consumer_names (delete_all names s).1).0 k
          ≡ contains (js.consumer_names s).0 k
    unfolding delete_all
    keeps-delete_all [] s k h = refl
    keeps-delete_all (name ∷ names) s k h =
        let s' = (js.delete_consumer s name).1 in
        elim (Option-cases (js.delete_consumer s name).0) [
          | inl done ↦ ground (arith, done, d.deleted s name k done, keeps-delete_all names s' k)
          | inr (e, broken) ↦ ground (arith, broken, d.failed s name k e broken)
        ]

    -- If pruning returns no error, the consumers are exactly those of the given services that were
    -- there before.
    pub prune_consumers_done :
        (services : List String) (s : S) (k : String)
        → (prune_consumers services s).0 ≡ none
        → contains (js.consumer_names (prune_consumers services s).1).0 k
          ≡ (contains services k && contains (js.consumer_names s).0 k)
    unfolding prune_consumers
    prune_consumers_done services s k h =
        let names = stale_names services (js.consumer_names s).0 in
        ground (
          arith,
          contains-delete_all names s k,
          contains-stale_names services (js.consumer_names s).0 k,
        )

    -- Whether pruning fails or not, and wherever it fails, no consumer of a given service is
    -- deleted.
    pub prune_consumers_keeps :
        (services : List String) (s : S) (k : String)
        → contains services k ≡ true
        → contains (js.consumer_names (prune_consumers services s).1).0 k
          ≡ contains (js.consumer_names s).0 k
    unfolding prune_consumers
    prune_consumers_keeps services s k h =
        let names = stale_names services (js.consumer_names s).0 in
        ground (
          arith,
          keeps-delete_all names s k,
          contains-stale_names services (js.consumer_names s).0 k,
        )
