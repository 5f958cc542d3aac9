-- ===== src/Gateway/Spending.antt =====
-- What a call of `AIGateway.chat` (backend/src/rendercart/ai/gateway.py) adds to the budget.
use render_cart.Prelude.{
  ℕ, ◌+◌, ◌≤◌, ◌≡◌, refl, sym, subst, ◌⊎◌, inl, inr, Bool, true, false, String, Option, none, some,
  arith, if◌then◌else◌, ◌==◌, ltb, length, Bool-cases, is_some,
}
use render_cart.Gateway.{
  CircuitBreaker, Windows, BudgetReservation, reserved_usd, set_window, settle_window, result,
  settle_budget, reserve_budget, openrouter_estimate, token_cost, Reply, unreachable, malformed,
  content, ChatResult, Outcome, answers, raises, unrecorded, Settings, ChatCall, Gateway,
  record_usage, set_breaker, settle_reply, ask_paid, fall_back, use_local, ask_local, chat,
  available,
}

-- What a call costs, by its outcome.
abbrev pub spent : Outcome → ℕ
spent (answers r) = r.estimated_cost
spent (raises e) = 0
spent (unrecorded r) = r.estimated_cost

-- The window of the month grows by the cost of the answer, and no other window changes; a cost
-- is spent only with a key and if the estimate fits under the cap.
pub record Spends (s : Settings) (c : ChatCall) (before : Windows) (o : Outcome) (after : Windows)
    : Type 0 where
  pub windows :
      (m : ℕ)
      → reserved_usd (after m) ≡ reserved_usd (before m) + (if m == c.month then spent o else 0)
  pub covered :
      (spent o ≡ 0)
      ⊎ ((is_some s.openrouter_key ≡ true)
          × (reserved_usd (before c.month)
                + openrouter_estimate s.prices c.message_lengths c.max_tokens
              ≤ s.monthly_cap))

module _ (s : Settings) (c : ChatCall) where
  abbrev estimate : ℕ
  estimate = openrouter_estimate s.prices c.message_lengths c.max_tokens

  nothing-Spends : (w : Windows) (o : Outcome) → spent o ≡ 0 → Spends s c w o w
  nothing-Spends w o e = record { windows = λ m. ground (arith, e); covered = inl e }

  record_usage-windows :
      (b : Bool) (r : ChatResult) (g : Gateway)
      → ((record_usage b r g).1.windows ≡ g.windows)
        × (spent (record_usage b r g).0 ≡ r.estimated_cost)
  record_usage-windows true r g = (refl, refl)
  record_usage-windows false r g = (refl, refl)

  abbrev held : BudgetReservation
  held = record { month_start = c.month; amount = estimate }

  abbrev with_estimate : Windows → Windows
  with_estimate w = set_window c.month (reserved_usd (w c.month) + estimate) w

  settle_held :
      (w : Windows) (actual n m : ℕ)
      → reserved_usd (settle_window held actual (some (n + estimate)) w m)
        ≡ (if m == c.month then n + actual else reserved_usd (w m))
  settle_held w actual n m = ground arith

  window_held : (w : Windows) → with_estimate w c.month ≡ some (reserved_usd (w c.month) + estimate)
  window_held w = ground arith

  -- A reservation that is settled leaves the actual cost.
  reserve_settle :
      (w : Windows) (actual m : ℕ)
      → reserved_usd (settle_budget held actual (with_estimate w) m)
        ≡ reserved_usd (w m) + (if m == c.month then actual else 0)
  unfolding settle_budget
  reserve_settle w actual m =
      subst
        (λ o.
          reserved_usd (settle_window held actual o (with_estimate w) m)
          ≡ reserved_usd (w m) + (if m == c.month then actual else 0))
        (sym (window_held w))
        (ground (arith, settle_held (with_estimate w) actual (reserved_usd (w c.month)) m))

  abbrev Fits : Windows → Type 0
  Fits w = (is_some s.openrouter_key ≡ true) × (reserved_usd (w c.month) + estimate ≤ s.monthly_cap)

  settle_reply-Spends :
      (w : Windows) (y : Reply) (g : Gateway)
      → Fits w
      → g.windows ≡ with_estimate w
      → let (o, g') = settle_reply s c held y g in Spends s c w o g'.windows
  settle_reply-Spends w unreachable g f e = record {
    windows = λ m. rw e (reserve_settle w 0 m);
    covered = inl refl;
  }
  settle_reply-Spends w malformed g f e = record {
    windows = λ m. rw e (reserve_settle w 0 m);
    covered = inl refl;
  }
  settle_reply-Spends w (content text input output) g f e =
      let cost = token_cost s.prices input output in
      let r : ChatResult = result "openrouter" text input output cost true in
      let settled : Gateway = record g { windows = settle_budget held cost g.windows } in
      let u = record_usage-windows c.records r settled in
      record { windows = λ m. rw (u.0, u.1, e) (reserve_settle w cost m); covered = inr f }

  ask_paid-Spends :
      (key : Option String) (g : Gateway)
      → s.openrouter_key ≡ key
      → let (o, g') = ask_paid s c key g in Spends s c g.windows o g'.windows
  unfolding reserve_budget
  ask_paid-Spends none g k = nothing-Spends g.windows _ refl
  ask_paid-Spends (some key) g k =
      elim (Bool-cases (ltb s.monthly_cap (reserved_usd (g.windows c.month) + estimate))) [
        | inl over ↦ rw over (record { windows = λ m. ground arith; covered = inl refl })
        | inr within ↦
            rw within (settle_reply-Spends g.windows c.paid_reply _ (rw k refl, ground arith) refl)
      ]

  fall_back-Spends :
      (w : Windows) (g : Gateway)
      → g.windows ≡ w
      → let (o, g') = fall_back s c g in Spends s c w o g'.windows
  unfolding fall_back
  fall_back-Spends w g e =
      subst (λ v. Spends s c v (fall_back s c g).0 (fall_back s c g).1.windows) e
        (ask_paid-Spends s.openrouter_key g refl)

  record_free :
      (b : Bool) (r : ChatResult) (g : Gateway)
      → r.estimated_cost ≡ 0
      → let (o, g') = record_usage b r g in Spends s c g.windows o g'.windows
  record_free true r g e = nothing-Spends g.windows (answers r) e
  record_free false r g e = nothing-Spends g.windows (unrecorded r) e

  either_Spends :
      (b : Bool) (p q : Outcome × Gateway) (w : Windows)
      → Spends s c w p.0 p.1.windows
      → Spends s c w q.0 q.1.windows
      → let (o, g') = if b then p else q in Spends s c w o g'.windows
  either_Spends true p q w h k = h
  either_Spends false p q w h k = k

  use_local-Spends :
      (y : Reply) (g : Gateway)
      → let (o, g') = use_local s c y g in Spends s c g.windows o g'.windows
  use_local-Spends unreachable g = fall_back-Spends g.windows _ refl
  use_local-Spends malformed g = fall_back-Spends g.windows _ refl
  use_local-Spends (content text input output) g =
      either_Spends c.records _ _ g.windows (nothing-Spends g.windows _ refl)
        (fall_back-Spends g.windows _ refl)

  ask_local-Spends :
      (a : Bool × CircuitBreaker) (g : Gateway)
      → let (o, g') = ask_local s c a g in Spends s c g.windows o g'.windows
  ask_local-Spends (true, b) g = use_local-Spends c.local_reply (set_breaker b g)
  ask_local-Spends (false, b) g = fall_back-Spends g.windows _ refl

  -- A call adds to the window of its month exactly what its outcome cost, and changes no other
  -- window: nothing for an answer of the local provider or an error. It costs something only if
  -- there is a key and the estimate fits under the monthly cap.
  pub chat-Spends : (g : Gateway) → let (o, g') = chat s c g in Spends s c g.windows o g'.windows
  unfolding chat
  chat-Spends g =
      either_Spends (length c.message_lengths == 0) _ _ g.windows (nothing-Spends g.windows _ refl)
        (either_Spends (c.max_tokens == 0) _ _ g.windows (nothing-Spends g.windows _ refl) (
          either_Spends s.mock _ _ g.windows (record_free c.records _ g refl)
            (ask_local-Spends (available c.now g.local_breaker) g)))
