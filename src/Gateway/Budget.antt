-- ===== src/Gateway/Budget.antt =====
-- The monthly budget of the paid provider (`_reserve_openrouter_budget` and
-- `_settle_openrouter_budget` of backend/src/rendercart/ai/gateway.py), over the calls of all the
-- workers in any order.
use render_cart.Prelude.{
  ℕ, ◌+◌, ◌-◌, ◌≤◌, ◌≡◌, refl, sym, ap, subst, ◌∙◌, inl, inr, none, some, List, ◌∷◌, ◌++◌, arith,
  if◌then◌else◌, ◌==◌, sum_by, sum_by-append, Bool-cases, ltb, All, All-map, All-append,
  All-append_left, All-append_right, Option, is_some, true,
}
use render_cart.Gateway.{
  Windows, BudgetReservation, reserved_usd, set_window, settle_window, reserve_budget,
  settle_budget,
}

-- A settlement: the month, what was reserved, and what the call cost.
pub record Settlement : Type 0 where
  pub month : ℕ
  pub amount : ℕ
  pub actual_cost : ℕ

-- The windows, the reservations that no call has settled yet, and the settlements so far.
pub record Books : Type 0 where
  pub windows : Windows
  pub open_reservations : List BudgetReservation
  pub settlements : List Settlement

abbrev settlement : BudgetReservation → ℕ → Settlement
settlement r actual = record { month = r.month_start; amount = r.amount; actual_cost = actual }

-- One transaction of some worker.
pub data BudgetStep (cap : ℕ) : Books → Books → Type 0 where
  granted :
      (month cost : ℕ) (r : BudgetReservation) (w : Windows) (b : Books)
      → reserve_budget cap month cost b.windows ≡ (some r, w)
      → BudgetStep cap b (record b { windows = w; open_reservations = r ∷ b.open_reservations })
  refused :
      (month cost : ℕ) (w : Windows) (b : Books)
      → reserve_budget cap month cost b.windows ≡ (none, w)
      → BudgetStep cap b (record b { windows = w })
  settled :
      (before after : List BudgetReservation) (r : BudgetReservation) (actual : ℕ) (b : Books)
      → b.open_reservations ≡ before ++ r ∷ after
      → BudgetStep cap b (record {
        windows = settle_budget r actual b.windows;
        open_reservations = before ++ after;
        settlements = settlement r actual ∷ b.settlements;
      })

pub data BudgetRun (cap : ℕ) (start : Books) : Books → Type 0 where
  begin : BudgetRun cap start start
  next : {b c : Books} → BudgetRun cap start b → BudgetStep cap b c → BudgetRun cap start c

abbrev if_month : (month m n : ℕ) → ℕ
if_month month m n = if m == month then n else 0

abbrev pub open_sum : ℕ → List BudgetReservation → ℕ
open_sum month = sum_by (λ r. if_month month r.month_start r.amount)

abbrev pub spent_sum : ℕ → List Settlement → ℕ
spent_sum month = sum_by (λ s. if_month month s.month s.actual_cost)

-- By how much calls cost more than what was reserved for them.
abbrev pub overrun_sum : ℕ → List Settlement → ℕ
overrun_sum month = sum_by (λ s. if_month month s.month (s.actual_cost - s.amount))

abbrev HasWindow : Windows → BudgetReservation → Type 0
HasWindow w r = is_some (w r.month_start) ≡ true

-- An open reservation has a window, and the window of each month is what is reserved and what is spent, and keeps the cap but for calls
-- that cost more than their estimate.
pub record InBudget (cap : ℕ) (b : Books) : Type 0 where
  pub opened : All (HasWindow b.windows) b.open_reservations
  pub accounted :
      (m : ℕ)
      → reserved_usd (b.windows m) ≡ open_sum m b.open_reservations + spent_sum m b.settlements
  pub capped : (m : ℕ) → reserved_usd (b.windows m) ≤ cap + overrun_sum m b.settlements

-- What a grant and a refusal are.
reserve_granted :
    (cap month cost : ℕ) (r : BudgetReservation) (w v : Windows)
    → reserve_budget cap month cost w ≡ (some r, v)
    → (reserved_usd (w month) + cost ≤ cap)
      × (r ≡ record { month_start = month; amount = cost })
      × (v ≡ set_window month (reserved_usd (w month) + cost) w)
unfolding reserve_budget
reserve_granted cap month cost r w v e =
    elim (Bool-cases (ltb cap (reserved_usd (w month) + cost))) [
      | inl over ↦ let clash = rw over at e in cc
      | inr within ↦ let same = rw within at e in (ground arith, cc, sym (ap (λ p. p.1) same))
    ]

reserve_refused :
    (cap month cost : ℕ) (w v : Windows)
    → reserve_budget cap month cost w ≡ (none, v)
    → v ≡ set_window month (reserved_usd (w month)) w
unfolding reserve_budget
reserve_refused cap month cost w v e = elim (Bool-cases (ltb cap (reserved_usd (w month) + cost))) [
  | inl over ↦ let same = rw over at e in sym (ap (λ p. p.1) same)
  | inr within ↦ let clash = rw within at e in cc
]

set_window_at :
    (month n : ℕ) (w : Windows) (m : ℕ)
    → reserved_usd (set_window month n w m) ≡ (if m == month then n else reserved_usd (w m))
set_window_at month n w m = ground arith

set_window-HasWindow :
    (month n : ℕ) (w : Windows) (r : BudgetReservation)
    → HasWindow w r
    → HasWindow (set_window month n w) r
set_window-HasWindow month n w r h = ground (arith, h)

settle_window-HasWindow :
    (r : BudgetReservation) (actual : ℕ) (o : Option ℕ) (w : Windows) (x : BudgetReservation)
    → HasWindow w x
    → HasWindow (settle_window r actual o w) x
settle_window-HasWindow r actual none w x h = h
settle_window-HasWindow r actual (some n) w x h =
    set_window-HasWindow r.month_start (n + actual - r.amount) w x h

granted-InBudget :
    (cap month cost : ℕ) (r : BudgetReservation) (w : Windows) (b : Books)
    → reserve_budget cap month cost b.windows ≡ (some r, w)
    → InBudget cap b
    → InBudget cap (record b { windows = w; open_reservations = r ∷ b.open_reservations })
granted-InBudget cap month cost r w b e h =
    let g = reserve_granted cap month cost r b.windows w e in
    let set : (m : ℕ)
        → reserved_usd (w m) ≡ (
            if m == month
            then reserved_usd (b.windows month) + cost
            else reserved_usd (b.windows m)) =
      λ m. ap (λ x. reserved_usd (x m)) g.2 ∙ set_window_at month _ b.windows m in
    let own_month : r.month_start ≡ month = ap (λ x. x.month_start) g.1 in
    let own_cost : r.amount ≡ cost = ap (λ x. x.amount) g.1 in
    record {
      opened = (
        rw g.2 (rw own_month (ground arith)),
        subst (λ v. All (HasWindow v) b.open_reservations) (sym g.2)
            (All-map (HasWindow b.windows) (set_window-HasWindow month _ b.windows)
              b.open_reservations h.opened),
      );
      accounted = λ m. ground (arith, set m, own_month, own_cost, h.accounted m, h.accounted month);
      capped = λ m. ground (arith, set m, g.0, h.capped m);
    }

refused-InBudget :
    (cap month cost : ℕ) (w : Windows) (b : Books)
    → reserve_budget cap month cost b.windows ≡ (none, w)
    → InBudget cap b
    → InBudget cap (record b { windows = w })
refused-InBudget cap month cost w b e h =
    let same = reserve_refused cap month cost b.windows w e in
    let set : (m : ℕ)
        → reserved_usd (w m)
          ≡ (if m == month then reserved_usd (b.windows month) else reserved_usd (b.windows m)) =
      λ m. ap (λ x. reserved_usd (x m)) same ∙ set_window_at month _ b.windows m in
    record {
      opened = rw same (
          All-map (HasWindow b.windows) (set_window-HasWindow month _ b.windows) b.open_reservations
            h.opened);
      accounted = λ m. ground (arith, set m, h.accounted m, h.accounted month);
      capped = λ m. ground (arith, set m, h.capped m, h.capped month);
    }

settle_window_at :
    (r : BudgetReservation) (actual : ℕ) (w : Windows) (o : Option ℕ) (m : ℕ)
    → w r.month_start ≡ o
    → is_some o ≡ true
    → r.amount ≤ reserved_usd o
    → reserved_usd (settle_window r actual o w m) + if_month m r.month_start r.amount
      ≡ reserved_usd (w m) + if_month m r.month_start actual
settle_window_at r actual w none m e has le = cc
settle_window_at r actual w (some n) m e has le = elim (Bool-cases (m == r.month_start)) [
  | inl hit ↦ let same : m ≡ r.month_start = ground arith in rw (same, e) (ground (arith, le))
  | inr miss ↦ ground (arith, miss)
]

settled-InBudget :
    (cap : ℕ) (before after : List BudgetReservation) (r : BudgetReservation) (actual : ℕ)
    (b : Books)
    → b.open_reservations ≡ before ++ r ∷ after
    → InBudget cap b
    → InBudget cap (record {
      windows = settle_budget r actual b.windows;
      open_reservations = before ++ after;
      settlements = settlement r actual ∷ b.settlements;
    })
unfolding settle_budget
settled-InBudget cap before after r actual b e h =
    let open_before : (m : ℕ)
        → open_sum m b.open_reservations
          ≡ open_sum m before + (if_month m r.month_start r.amount + open_sum m after) =
      λ m. ap (open_sum m) e ∙ sum_by-append _ before (r ∷ after) in
    let open_after : (m : ℕ) → open_sum m (before ++ after) ≡ open_sum m before + open_sum m after =
      λ m. sum_by-append _ before after in
    let own = r.month_start in
    let enough : r.amount ≤ reserved_usd (b.windows own) =
      ground (arith, h.accounted own, open_before own) in
    let has : All (HasWindow b.windows) (before ++ r ∷ after) = rw e at h.opened in
    let at_month = settle_window_at r actual b.windows (b.windows own) in
    let own_has = (All-append_right (HasWindow b.windows) before (r ∷ after) has).0 in
    let rest_has =
      All-append (HasWindow b.windows) before after
        (All-append_left (HasWindow b.windows) before (r ∷ after) has)
        (All-append_right (HasWindow b.windows) before (r ∷ after) has).1 in
    record {
      opened =
          All-map (HasWindow b.windows) (settle_window-HasWindow r actual (b.windows own) b.windows)
            (before ++ after) rest_has;
      accounted = λ m.
          omega (arith, at_month m refl own_has enough, h.accounted m, open_before m, open_after m);
      capped = λ m. ground (arith, at_month m refl own_has enough, h.capped m);
    }

step-InBudget : {cap : ℕ} {b c : Books} → BudgetStep cap b c → InBudget cap b → InBudget cap c
step-InBudget {cap} (granted month cost r w b e) h = granted-InBudget cap month cost r w b e h
step-InBudget {cap} (refused month cost w b e) h = refused-InBudget cap month cost w b e h
step-InBudget {cap} (settled before after r actual b e) h =
    settled-InBudget cap before after r actual b e h

-- Whatever the workers do, in any order: if the windows of all months account for the open
-- reservations and the settlements, and keep the cap but for overruns, they still do after any
-- sequence of grants, refusals and settlements, each of an open reservation. So without a call
-- that costs more than its estimate, what is reserved and spent in a month is at most the cap.
pub run-InBudget : {cap : ℕ} {b c : Books} → InBudget cap b → BudgetRun cap b c → InBudget cap c
run-InBudget h begin = h
run-InBudget h (next r s) = step-InBudget s (run-InBudget h r)
