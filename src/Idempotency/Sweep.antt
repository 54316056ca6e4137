-- ===== src/Idempotency/Sweep.antt =====
-- `sweep` of crates/mandraked/src/auth/session.rs, which the daemon runs every hour (serve.rs). The text
-- of a time, which the `time` crate makes, is a parameter.
use mandrake.Common.{ℕ, ◌+◌, ◌/◌, ◌<◌, ◌≡◌, Bool, true, not, ◌||◌, count_if}
use mandrake.Common.Int.{negsuc}
use mandrake.Common.Table.{delete_where}
use mandrake.Common.Text.{Text}
use mandrake.Common.Text.Order.{less}
use mandrake.Core.Time.{Timestamp, second, plus_seconds}
use mandrake.Daemon.Store.{SessionRow}
use mandrake.Idempotency.{Row, State}

-- `plus_seconds(-24 * 3600)`
abbrev pub day_before : Timestamp → Timestamp
day_before now = plus_seconds now (negsuc 86399)

-- The first second of the year 10000, which has no text.
abbrev pub last_second : ℕ
last_second = 253402300800

-- The texts of times in different seconds are in the order of the times; within a second they are not,
-- since a fraction has as many digits as it needs.
abbrev pub KeepsOrder : (Timestamp → Text) → Type 0
KeepsOrder to_rfc3339 =
    (t u : Timestamp)
    → t / second < u / second
    → u / second < last_second
    → less (to_rfc3339 t) (to_rfc3339 u) ≡ true

module _ (to_rfc3339 : Timestamp → Text) where
  -- `… <= ?1`, on texts.
  abbrev pub is_due : Timestamp → Timestamp → Bool
  is_due limit at = not (less (to_rfc3339 limit) (to_rfc3339 at))

  abbrev pub ended : Timestamp → SessionRow → Bool
  ended now r = is_due now r.expires_at || is_due now r.idle_expires_at

  abbrev pub outdated : Timestamp → Row → Bool
  outdated now r = is_due (day_before now) r.created_at

  -- How many rows were deleted, and what is left.
  unfoldable pub sweep : Timestamp → State → ℕ × State
  sweep now s = (
    count_if (ended now) s.app.db.sessions + count_if (outdated now) s.rows,
    record {
      app = record s.app {
        db = record s.app.db { sessions = delete_where (ended now) s.app.db.sessions };
      };
      rows = delete_where (outdated now) s.rows;
    },
  )
