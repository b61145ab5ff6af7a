-- ===== src/EventQueue/Stop.antt =====
-- Stop of internal/eventqueue/eventqueue.go.
use kigeon.Prelude.{Option, none, some, List, [], ◌∷◌, ◌++◌}

pub data Closing (Server Connection : Type 0) : Type 0 where
  closed : Connection → Closing Server Connection
  shut_down : Server → Closing Server Connection

-- `Stop`, where a field may be nil
unfoldable pub stop :
    {Server Connection : Type 0}
    → Option Connection
    → Option Server
    → List (Closing Server Connection)
stop connection server =
    (elim connection [ none ↦ [] | some c ↦ closed c ∷ [] ])
    ++ (elim server [ none ↦ [] | some s ↦ shut_down s ∷ [] ])
