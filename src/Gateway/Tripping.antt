-- ===== src/Gateway/Tripping.antt =====
-- When the circuit breaker of the local provider opens (backend/src/rendercart/ai/gateway.py).
use render_cart.Prelude.{
  ℕ, ◌+◌, ◌<◌, ◌≡◌, refl, sym, subst, ap, ◌∙◌, Bool, true, false, Option, none, some, List, [], ◌∷◌,
  arith, String, if◌then◌else◌, ◌==◌, leb, length, All,
}
use render_cart.Gateway.{
  CircuitBreaker, closed, reset_time, available, available_since, success, failure,
  BudgetReservation, Windows, Reply, unreachable, malformed, content, ChatResult, Outcome, Settings,
  ChatCall, Gateway, record_usage, set_breaker, settle_reply, with_reservation, ask_paid, fall_back,
  use_local, ask_local, chat, reserve_budget, openrouter_estimate,
}

-- Calls one after the other.
abbrev pub chats : Settings → List ChatCall → Gateway → Gateway
chats s [] g = g
chats s (c ∷ cs) g = chats s cs (chat s c g).1

module _ (s : Settings) (c : ChatCall) where
  record_usage-breaker :
      (b : Bool) (r : ChatResult) (g : Gateway)
      → (record_usage b r g).1.local_breaker ≡ g.local_breaker
  record_usage-breaker true r g = refl
  record_usage-breaker false r g = refl

  settle_reply-breaker :
      (h : BudgetReservation) (y : Reply) (g : Gateway)
      → (settle_reply s c h y g).1.local_breaker ≡ g.local_breaker
  settle_reply-breaker h unreachable g = refl
  settle_reply-breaker h malformed g = refl
  settle_reply-breaker h (content text input output) g = record_usage-breaker c.records _ _

  with_reservation-breaker :
      (p : Option BudgetReservation × Windows) (g : Gateway)
      → (with_reservation s c p g).1.local_breaker ≡ g.local_breaker
  with_reservation-breaker (none, w) g = refl
  with_reservation-breaker (some h, w) g =
      settle_reply-breaker h c.paid_reply (record g { windows = w })

  ask_paid-breaker :
      (key : Option String) (g : Gateway) → (ask_paid s c key g).1.local_breaker ≡ g.local_breaker
  ask_paid-breaker none g = refl
  ask_paid-breaker (some key) g =
      with_reservation-breaker
        (reserve_budget s.monthly_cap c.month
          (openrouter_estimate s.prices c.message_lengths c.max_tokens) g.windows)
        g

  -- The paid provider does not move the breaker.
  fall_back-breaker : (g : Gateway) → (fall_back s c g).1.local_breaker ≡ g.local_breaker
  unfolding fall_back
  fall_back-breaker g = ask_paid-breaker s.openrouter_key g

  either_breaker :
      (P : CircuitBreaker → Type 0) (b : Bool) (p q : Outcome × Gateway)
      → P p.1.local_breaker
      → P q.1.local_breaker
      → P (if b then p else q).1.local_breaker
  either_breaker P true p q h k = h
  either_breaker P false p q h k = k

  abbrev IsClosed : CircuitBreaker → Type 0
  IsClosed b = b.opened_at ≡ none

  malformed-IsClosed :
      (y : Reply) (g : Gateway) → y ≡ malformed → IsClosed (use_local s c y g).1.local_breaker
  unfolding success failure
  malformed-IsClosed malformed g e =
      rw (fall_back-breaker (set_breaker (failure c.failed_at (success g.local_breaker)) g)) refl
  malformed-IsClosed unreachable g e = cc
  malformed-IsClosed (content text input output) g e = cc

  ask_local-IsClosed :
      (o : Option ℕ) (b : CircuitBreaker) (g : Gateway)
      → c.local_reply ≡ malformed
      → o ≡ none
      → IsClosed (ask_local s c (available_since o c.now b) g).1.local_breaker
  ask_local-IsClosed none b g y e = malformed-IsClosed c.local_reply (set_breaker b g) y
  ask_local-IsClosed (some t) b g y e = cc

  chat-IsClosed :
      (g : Gateway)
      → c.local_reply ≡ malformed
      → IsClosed g.local_breaker
      → IsClosed (chat s c g).1.local_breaker
  unfolding chat available
  chat-IsClosed g y e = either_breaker IsClosed (length c.message_lengths == 0) _ _ e (
      either_breaker IsClosed (c.max_tokens == 0) _ _ e (
        either_breaker IsClosed s.mock _ _
          (subst IsClosed (sym (record_usage-breaker c.records _ g)) e)
          (ask_local-IsClosed g.local_breaker.opened_at g.local_breaker g y e)))

-- A local provider that answers every call with a malformed payload never opens the breaker,
-- however many calls fail: each resets the count of failures before its payload is refused.
pub chats-malformed :
    (s : Settings) (cs : List ChatCall) (g : Gateway)
    → All (λ c. c.local_reply ≡ malformed) cs
    → g.local_breaker.opened_at ≡ none
    → (chats s cs g).local_breaker.opened_at ≡ none
chats-malformed s [] g h e = e
chats-malformed s (c ∷ cs) g h e =
    chats-malformed s cs (chat s c g).1 h.1 (chat-IsClosed s c g h.0 e)

-- A call whose arguments are valid, of a gateway that is not in mock mode.
pub record Real (s : Settings) (c : ChatCall) : Type 0 where
  pub no_mock : s.mock ≡ false
  pub messages : (length c.message_lengths == 0) ≡ false
  pub tokens : (c.max_tokens == 0) ≡ false

-- The same call, with another answer of the local provider.
abbrev pub replying : ChatCall → Reply → ChatCall
replying c y = record c { local_reply = y }

module _ (s : Settings) (c : ChatCall) (real : Real s c) where
  chat-real : (g : Gateway) → chat s c g ≡ ask_local s c (available c.now g.local_breaker) g
  unfolding chat
  chat-real g = rw (real.messages, real.tokens, real.no_mock) refl

  unreachable-failure :
      (y : Reply) (g : Gateway)
      → y ≡ unreachable
      → (use_local s c y g).1.local_breaker ≡ failure c.failed_at g.local_breaker
  unreachable-failure unreachable g e =
      fall_back-breaker s c (set_breaker (failure c.failed_at g.local_breaker) g)
  unreachable-failure malformed g e = cc
  unreachable-failure (content text input output) g e = cc

  ask_local-failure :
      (o : Option ℕ) (b : CircuitBreaker) (g : Gateway)
      → c.local_reply ≡ unreachable
      → o ≡ none
      → (ask_local s c (available_since o c.now b) g).1.local_breaker ≡ failure c.failed_at b
  ask_local-failure none b g y e = unreachable-failure c.local_reply (set_breaker b g) y
  ask_local-failure (some t) b g y e = cc

  -- A call that fails on a breaker that is not open counts one failure more.
  chat-failure :
      (g : Gateway)
      → c.local_reply ≡ unreachable
      → g.local_breaker.opened_at ≡ none
      → (chat s c g).1.local_breaker ≡ failure c.failed_at g.local_breaker
  unfolding available
  chat-failure g y e =
      ap (λ r. r.1.local_breaker) (chat-real g)
      ∙ ask_local-failure g.local_breaker.opened_at g.local_breaker g y e

  fall_back-replying : (y : Reply) (g : Gateway) → fall_back s (replying c y) g ≡ fall_back s c g
  unfolding fall_back
  fall_back-replying y g = refl

  ask_local-open :
      (o : Option ℕ) (t : ℕ) (b : CircuitBreaker) (y : Reply) (g : Gateway)
      → o ≡ some t
      → c.now < t + reset_time
      → ask_local s (replying c y) (available_since o c.now b) g
        ≡ ask_local s c (available_since o c.now b) g
  ask_local-open none t b y g e h = cc
  ask_local-open (some u) t b y g e h =
      let same : u ≡ t = ground (arith, e) in
      let early : leb (u + reset_time) c.now ≡ false = ground (arith, same, h) in
      rw early (fall_back-replying y (set_breaker b g))

-- An open breaker, within its time: what the local provider would answer has no effect.
chat-open :
    (s : Settings) (c : ChatCall) (t : ℕ) (y : Reply) (g : Gateway)
    → Real s c
    → g.local_breaker.opened_at ≡ some t
    → c.now < t + reset_time
    → chat s (replying c y) g ≡ chat s c g
unfolding available
chat-open s c t y g real e h =
    let real' : Real s (replying c y) = record {
      no_mock = real.no_mock;
      messages = real.messages;
      tokens = real.tokens;
    } in
    chat-real s (replying c y) real' g
    ∙ ask_local-open s c real g.local_breaker.opened_at t g.local_breaker y g e h
    ∙ sym (chat-real s c real g)

-- A call that the breaker sees as a failure of the local provider.
pub record Fails (s : Settings) (c : ChatCall) : Type 0 where
  pub real : Real s c
  pub reply : c.local_reply ≡ unreachable

after_three :
    (s : Settings) (c1 c2 c3 : ChatCall) (g : Gateway)
    → Fails s c1
    → Fails s c2
    → Fails s c3
    → g.local_breaker ≡ closed
    → (chats s (c1 ∷ c2 ∷ c3 ∷ []) g).local_breaker.opened_at ≡ some c3.failed_at
unfolding failure
after_three s c1 c2 c3 g f1 f2 f3 e =
    let g1 = (chat s c1 g).1 in
    let g2 = (chat s c2 g1).1 in
    let b1 : g1.local_breaker ≡ record { failure_count = 1; opened_at = none } =
      chat-failure s c1 f1.real g f1.reply (ap (λ b. b.opened_at) e)
      ∙ ap (failure c1.failed_at) e in
    let b2 : g2.local_breaker ≡ record { failure_count = 2; opened_at = none } =
      chat-failure s c2 f2.real g1 f2.reply (ap (λ b. b.opened_at) b1)
      ∙ ap (failure c2.failed_at) b1 in
    ap (λ b. b.opened_at)
      (chat-failure s c3 f3.real g2 f3.reply (ap (λ b. b.opened_at) b2)
        ∙ ap (failure c3.failed_at) b2)

-- After three calls in a row whose requests to the local provider fail, on a closed breaker, the
-- provider is left alone for thirty seconds from the last failure: a valid call made in that time
-- has the same result and leaves the same state whatever the local provider would answer.
pub chats-unreachable :
    (s : Settings) (c1 c2 c3 c : ChatCall) (y : Reply) (g : Gateway)
    → Fails s c1
    → Fails s c2
    → Fails s c3
    → Real s c
    → g.local_breaker ≡ closed
    → c.now < c3.failed_at + reset_time
    → let g' = chats s (c1 ∷ c2 ∷ c3 ∷ []) g in chat s (replying c y) g' ≡ chat s c g'
chats-unreachable s c1 c2 c3 c y g f1 f2 f3 real e h =
    chat-open s c c3.failed_at y _ real (after_three s c1 c2 c3 g f1 f2 f3 e) h
