-- ===== src/Filter/Lifecycle.antt =====
-- Start and Stop of internal/filter/namespace_filter.go: the goroutine that runs the informer, and the
-- wait group that `Stop` waits for.
use kigeon.Prelude.{
  ◌≡◌, refl, ℕ, zero, suc, ◌+◌, ◌-◌, Bool, true, false, Option, none, some, List, [], ◌∷◌, arith,
  if◌then◌else◌,
}
use kigeon.Errors.{Error, errorf}

-- the context of the filter, and the count of the wait group
pub record Watch : Type 0 where
  pub canceled : Bool
  pub running : ℕ

-- what `NewDynamicNamespaceFilter` makes
abbrev pub unwatched : Watch
unwatched = record { canceled = false; running = 0 }

-- `Start`, given if the cache is synced in time; the informer runs on if it is not
unfoldable pub start : Bool → Watch → Option Error × Watch
start synced w = (
  if synced then none else some (errorf "failed to sync namespace cache" []),
  record w { running = 1 + w.running },
)

-- an informer ends once the context is canceled
unfoldable pub end_one : Watch → Watch
end_one w = if w.canceled then record w { running = w.running - 1 } else w

-- the end of the informers, as far as there are `n` of them
unfoldable pub end_all : ℕ → Watch → Watch
unfolding end_one
end_all zero w = w
end_all (suc n) w = end_all n (end_one w)

-- `Stop`, which returns when no informer is left
unfoldable pub stop : Watch → Watch
unfolding end_all
stop w = end_all w.running (record w { canceled = true })

unfoldable pub starts : List Bool → Watch → Watch
unfolding start
starts [] w = w
starts (synced ∷ l) w = starts l (start synced w).1

end_all-running :
    (n : ℕ) (w : Watch) → w.canceled ≡ true → w.running ≡ n → (end_all n w).running ≡ 0
unfolding end_all
end_all-running zero w c h = h
end_all-running (suc n) w c h = ground (arith, end_all-running n (end_one w))

-- Whatever was started, also where `Start` returned an error, `Stop` returns with every informer ended.
stop-starts : (l : List Bool) → (stop (starts l unwatched)).running ≡ 0
unfolding stop
stop-starts l =
    end_all-running (starts l unwatched).running (record (starts l unwatched) { canceled = true })
      refl refl
