-- ===== src/Alerts/Cap.antt =====
-- The monthly cap on the SMS of backend/src/rendercart/jobs/tasks.py.
use render_cart.Prelude.{ℕ, ◌+◌, ◌≤◌, ◌≡◌, List, if◌then◌else◌, ◌==◌, sum_by}
use render_cart.Alerts.{Delivery, Usage, AlertRows, or_new, is_pending}

-- The deliveries of a month that wait for their settlement.
abbrev pub pending_in : ℕ → List Delivery → ℕ
pending_in q = sum_by (λ d. if is_pending d.status then (if d.month == q then 1 else 0) else 0)

-- A month's usage counts its pending deliveries, and stays under the cap with what was sent.
abbrev pub Within : (cap pending_count : ℕ) → Usage → Type 0
Within cap n u = (u.reserved ≡ n) × (u.sent + u.reserved ≤ cap)

abbrev pub Capped : ℕ → AlertRows → Type 0
Capped cap r = (q : ℕ) → Within cap (pending_in q r.deliveries) (or_new (r.usages q))

abbrev pending_month : ℕ → Delivery → ℕ
pending_month q d = if is_pending d.status then (if d.month == q then 1 else 0) else 0
