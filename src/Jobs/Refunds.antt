-- ===== src/Jobs/Refunds.antt =====
-- What `execute_tool` (backend/src/rendercart/jobs/tasks.py) leaves of the quotas of a job.
use render_cart.Prelude.{ℕ, ◌+◌, ◌≡◌, ◌⊎◌, String}
use render_cart.Prelude.Int.{pos}
use render_cart.Quota.{Redis, value}
use render_cart.Jobs.{succeeded, failed, Desk, KeyNames}
use render_cart.Jobs.Ending.{Ending}
use render_cart.Jobs.Counters.{Counted, reserved_by}

module _ (redis : Redis) (names : KeyNames) (k : String) (n : ℕ) where
  -- A job that succeeded keeps what it reserved of the counter, and a failed one gives it back.
  abbrev pub KeepsOrGivesBack : Desk redis → Type 0
  KeepsOrGivesBack d =
      ((d.job.state ≡ succeeded) × (value redis k d.store ≡ pos (n + reserved_by d.job k)))
      ⊎ ((d.job.state ≡ failed) × (value redis k d.store ≡ pos n))

  abbrev CountedHere : Desk redis → Type 0
  CountedHere = Counted redis names k n
