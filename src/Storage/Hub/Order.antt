-- ===== src/Storage/Hub/Order.antt =====
-- pkg/storage/notify.go: the order of the notifications that a subscriber has to take.
use pizzasql.Prelude.{ℕ, ◌≤◌, ◌<◌, List, [], ◌∷◌, All}
use pizzasql.Prelude.Bytes.{Bytes, bytes_eq}
use pizzasql.Prelude.Eq.{nat_eq}
use pizzasql.Prelude.Map.{Map}
use pizzasql.Storage.Hub.{Notification, Hub}

-- Each notification has a smaller number than all that come after it.
abbrev pub Increasing : List Notification → Type 0
Increasing [] = Unit
Increasing (n ∷ queue) = All (λ (m : Notification). n.lsn < m.lsn) queue × Increasing queue

abbrev pub AllUpTo : ℕ → List Notification → Type 0
AllUpTo k queue = All (λ (m : Notification). m.lsn ≤ k) queue

-- Every queue is in the order of the numbers, and the hub has given none above its counter.
abbrev pub IsOrdered : Hub → Type 0
IsOrdered h = (s : ℕ) → Increasing (h.heap s).queue × AllUpTo h.last_lsn (h.heap s).queue
