-- ===== src/Gateway.antt =====
-- The AI gateway, backend/src/rendercart/ai/gateway.py: a local provider behind a circuit breaker,
-- and a paid provider under a monthly budget. Money is in millionths of a dollar, the quantum of
-- the source, and times are in microseconds of the monotonic clock. Prices are taken in millionths
-- of a dollar for a million tokens, and computed exactly where the source uses floats.
pub mod Budget
pub mod Spending
pub mod Tripping
pub mod Embedding
mod Tests
use render_cart.Prelude.{
  ℕ, zero, suc, ◌+◌, ◌-◌, ◌*◌, ◌/◌, ◌%◌, max, String, Bool, true, false, Option, none, some, List,
  [], ◌∷◌, ◌++◌, if◌then◌else◌, ◌==◌, ltb, leb, sum_by, length,
}

-- `_CircuitBreaker`, with its default arguments.
pub record CircuitBreaker : Type 0 where
  pub failure_count : ℕ
  pub opened_at : Option ℕ

abbrev pub failures : ℕ
failures = 3

abbrev pub reset_time : ℕ
reset_time = 30000000

abbrev pub closed : CircuitBreaker
closed = record { failure_count = 0; opened_at = none }

abbrev pub available_since : Option ℕ → (now : ℕ) → CircuitBreaker → Bool × CircuitBreaker
available_since none now b = (true, b)
available_since (some opened_at) now b =
    if leb (opened_at + reset_time) now then (true, closed) else (false, b)

-- `available`, which closes the breaker again after the time.
unfoldable pub available : (now : ℕ) → CircuitBreaker → Bool × CircuitBreaker
available now b = available_since b.opened_at now b

unfoldable pub success : CircuitBreaker → CircuitBreaker
success b = record { failure_count = 0; opened_at = none }

unfoldable pub failure : (now : ℕ) → CircuitBreaker → CircuitBreaker
failure now b =
    let count = b.failure_count + 1 in
    record {
      failure_count = count;
      opened_at = if leb failures count then some now else b.opened_at;
    }

-- The rows of `AISpendWindow`: `reserved_usd` by the month.
abbrev pub Windows : Type 0
Windows = ℕ → Option ℕ

abbrev pub reserved_usd : Option ℕ → ℕ
reserved_usd none = 0
reserved_usd (some n) = n

pub record BudgetReservation : Type 0 where
  pub month_start : ℕ
  pub amount : ℕ

abbrev pub set_window : ℕ → ℕ → Windows → Windows
set_window month amount w = λ m. if m == month then some amount else w m

-- `_reserve_openrouter_budget`; the row of the month is inserted in either case.
unfoldable pub reserve_budget :
    (cap month estimated_cost : ℕ) → Windows → Option BudgetReservation × Windows
reserve_budget cap month estimated_cost w =
    let reserved = reserved_usd (w month) in
    if ltb cap (reserved + estimated_cost) then (none, set_window month reserved w) else (
      some (record { month_start = month; amount = estimated_cost }),
      set_window month (reserved + estimated_cost) w,
    )

abbrev pub settle_window : BudgetReservation → (actual_cost : ℕ) → Option ℕ → Windows → Windows
settle_window r actual_cost none w = w
settle_window r actual_cost (some reserved) w =
    set_window r.month_start (reserved + actual_cost - r.amount) w

-- `_settle_openrouter_budget`: `max(0, reserved - amount + actual)`.
unfoldable pub settle_budget : BudgetReservation → (actual_cost : ℕ) → Windows → Windows
settle_budget r actual_cost w = settle_window r actual_cost (w r.month_start) w

pub record Prices : Type 0 where
  pub input_cost_per_million : ℕ
  pub output_cost_per_million : ℕ

-- `quantize(Decimal("0.000001"))` of `n` millionths of the quantum: to the nearest, half to even.
unfoldable pub quantize : ℕ → ℕ
quantize n =
    let q = n / 1000000 in
    let r = n % 1000000 in if ltb r 500000 then q else if ltb 500000 r then q + 1 else q + q % 2

abbrev pub token_cost : Prices → (input output : ℕ) → ℕ
token_cost p input output =
    quantize (input * p.input_cost_per_million + output * p.output_cost_per_million)

-- `_openrouter_estimate`, of the lengths of the messages.
unfoldable pub openrouter_estimate : Prices → (message_lengths : List ℕ) → (max_tokens : ℕ) → ℕ
unfolding quantize
openrouter_estimate p lengths max_tokens =
    token_cost p (sum_by (λ n. max 1 (n / 4)) lengths) max_tokens

-- What a provider answers: an exception of the transport, a payload that `_parse_chat_result`
-- refuses, or one that it reads.
pub data Reply : Type 0 where
  unreachable : Reply
  malformed : Reply
  content : (text : String) → (input_tokens output_tokens : ℕ) → Reply

pub record ChatResult : Type 0 where
  pub content : String
  pub provider : String
  pub input_tokens : ℕ
  pub output_tokens : ℕ
  pub estimated_cost : ℕ
  pub fallback_used : Bool

pub data AiError : Type 0 where
  invalid_arguments provider_unavailable spend_cap_reached : AiError

-- What `chat` returns or raises; `unrecorded` is the exception of the usage recorder, raised with
-- the answer at hand.
pub data Outcome : Type 0 where
  answers : ChatResult → Outcome
  raises : AiError → Outcome
  unrecorded : ChatResult → Outcome

pub record Settings : Type 0 where
  pub mock : Bool
  pub openrouter_key : Option String
  pub monthly_cap : ℕ
  pub prices : Prices

-- A call: its arguments, the readings of the clock, the month, what the providers answer, and
-- whether the recorder works.
pub record ChatCall : Type 0 where
  pub message_lengths : List ℕ
  pub last_user : String
  pub max_tokens : ℕ
  pub now : ℕ
  pub failed_at : ℕ
  pub month : ℕ
  pub local_reply : Reply
  pub paid_reply : Reply
  pub records : Bool

pub record Gateway : Type 0 where
  pub local_breaker : CircuitBreaker
  pub windows : Windows
  pub usage : List ChatResult

abbrev pub result : (provider text : String) → (input output cost : ℕ) → Bool → ChatResult
result provider text input output cost fallback = record {
  content = text;
  provider = provider;
  input_tokens = input;
  output_tokens = output;
  estimated_cost = cost;
  fallback_used = fallback;
}

-- `_record`
abbrev pub record_usage : (works : Bool) → ChatResult → Gateway → Outcome × Gateway
record_usage true r g = (answers r, record g { usage = g.usage ++ r ∷ [] })
record_usage false r g = (unrecorded r, g)

abbrev pub set_breaker : CircuitBreaker → Gateway → Gateway
set_breaker b g = record g { local_breaker = b }

-- The answer of the paid provider, under a reservation.
abbrev pub settle_reply :
    Settings → ChatCall → BudgetReservation → Reply → Gateway → Outcome × Gateway
settle_reply s c r unreachable g =
    (raises provider_unavailable, record g { windows = settle_budget r 0 g.windows })
settle_reply s c r malformed g =
    (raises provider_unavailable, record g { windows = settle_budget r 0 g.windows })
settle_reply s c r (content text input output) g =
    let cost = token_cost s.prices input output in
    record_usage c.records (result "openrouter" text input output cost true)
      (record g { windows = settle_budget r cost g.windows })

abbrev pub with_reservation :
    Settings → ChatCall → Option BudgetReservation × Windows → Gateway → Outcome × Gateway
with_reservation s c (none, w) g = (raises spend_cap_reached, record g { windows = w })
with_reservation s c (some r, w) g = settle_reply s c r c.paid_reply (record g { windows = w })

abbrev pub ask_paid : Settings → ChatCall → Option String → Gateway → Outcome × Gateway
ask_paid s c none g = (raises provider_unavailable, g)
ask_paid s c (some key) g =
    with_reservation s c
      (reserve_budget s.monthly_cap c.month
        (openrouter_estimate s.prices c.message_lengths c.max_tokens) g.windows)
      g

-- The part of `chat` after the local provider.
unfoldable pub fall_back : Settings → ChatCall → Gateway → Outcome × Gateway
unfolding reserve_budget settle_budget
fall_back s c g = ask_paid s c s.openrouter_key g

-- The `try` block of the local provider. Any exception in it counts as a failure of the provider:
-- that of the transport, that of the parser (after `success`), and that of the recorder.
abbrev pub use_local : Settings → ChatCall → Reply → Gateway → Outcome × Gateway
use_local s c unreachable g = fall_back s c (set_breaker (failure c.failed_at g.local_breaker) g)
use_local s c malformed g =
    fall_back s c (set_breaker (failure c.failed_at (success g.local_breaker)) g)
use_local s c (content text input output) g =
    if c.records
    then record_usage true (result "local" text input output 0 false)
        (set_breaker (success g.local_breaker) g)
    else fall_back s c (set_breaker (failure c.failed_at (success g.local_breaker)) g)

abbrev pub ask_local : Settings → ChatCall → Bool × CircuitBreaker → Gateway → Outcome × Gateway
ask_local s c (true, b) g = use_local s c c.local_reply (set_breaker b g)
ask_local s c (false, b) g = fall_back s c (set_breaker b g)

-- `AIGateway.chat`; the text of the mock mode is left to its last user message.
unfoldable pub chat : Settings → ChatCall → Gateway → Outcome × Gateway
unfolding fall_back available success failure
chat s c g =
    if length c.message_lengths == 0
    then (raises invalid_arguments, g)
    else if c.max_tokens == 0
    then (raises invalid_arguments, g)
    else if s.mock
    then record_usage c.records (result "mock" c.last_user 0 0 0 false) g
    else ask_local s c (available c.now g.local_breaker) g
