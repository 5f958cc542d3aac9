-- ===== src/Gateway/Tests.antt =====
-- A gateway whose local provider fails, and the laws at these inputs.
use render_cart.Prelude.{
  ℕ, ◌+◌, ◌≡◌, refl, true, false, none, some, List, [], ◌∷◌, ◌++◌, map, arith,
}
use render_cart.Gateway.{
  BudgetReservation, Settings, ChatCall, Gateway, Reply, unreachable, malformed, content, closed,
  quantize, openrouter_estimate, chat, reserve_budget, settle_budget,
}
use render_cart.Gateway.Budget.{Books, BudgetStep, BudgetRun, InBudget, run-InBudget}
use render_cart.Gateway.Spending.{Spends, chat-Spends}
use render_cart.Gateway.Tripping.{chats, replying, Real, Fails, chats-malformed, chats-unreachable}

abbrev settings : Settings
settings = record {
  mock = false;
  openrouter_key = some "key";
  monthly_cap = 25000000;
  prices = record { input_cost_per_million = 150000; output_cost_per_million = 600000 };
}

abbrev call_at : ℕ → Reply → ChatCall
call_at now y = record {
  message_lengths = 400 ∷ 9 ∷ [];
  last_user = "";
  max_tokens = 100;
  now = now;
  failed_at = now + 5;
  month = 24290;
  local_reply = y;
  paid_reply = content "answer" 110 50;
  records = true;
}

abbrev idle : Gateway
idle = record { local_breaker = closed; windows = λ m. none; usage = [] }

quantize-half : quantize 2500000 ≡ 2
unfolding quantize
quantize-half = refl

-- The paid answer to a failed local call: 110 and 50 tokens cost 46.5 millionths, to even.
chat-paid : (chat settings (call_at 0 unreachable) idle).1.windows 24290 ≡ some 46
unfolding chat quantize openrouter_estimate
chat-paid = refl

chat-Spends_example :
    let (o, g') = chat settings (call_at 0 unreachable) idle in
    Spends settings (call_at 0 unreachable) idle.windows o g'.windows
chat-Spends_example = chat-Spends settings (call_at 0 unreachable) idle

abbrev four_malformed : List ChatCall
four_malformed =
    call_at 0 malformed ∷ call_at 10 malformed ∷ call_at 20 malformed ∷ call_at 30 malformed ∷ []

chats-malformed_example : (chats settings four_malformed idle).local_breaker.opened_at ≡ none
chats-malformed_example =
    chats-malformed settings four_malformed idle (refl, (refl, (refl, (refl, tt)))) refl

call_at-Real : (now : ℕ) (y : Reply) → Real settings (call_at now y)
call_at-Real now y = record { no_mock = refl; messages = refl; tokens = refl }

failing_call : (now : ℕ) → Fails settings (call_at now unreachable)
failing_call now = record { real = call_at-Real now unreachable; reply = refl }

chats-unreachable_example :
    let g' =
      chats settings
        (call_at 0 unreachable ∷ call_at 10 unreachable ∷ call_at 20 unreachable ∷ [])
        idle in
    chat settings (replying (call_at 1000 unreachable) (content "late" 1 1)) g'
    ≡ chat settings (call_at 1000 unreachable) g'
chats-unreachable_example =
    chats-unreachable settings (call_at 0 unreachable) (call_at 10 unreachable)
      (call_at 20 unreachable) (call_at 1000 unreachable) (content "late" 1 1) idle (failing_call 0)
      (failing_call 10) (failing_call 20) (call_at-Real 1000 unreachable) refl (omega arith)

abbrev no_books : Books
no_books = record { windows = λ m. none; open_reservations = []; settlements = [] }

abbrev held : BudgetReservation
held = record { month_start = 24290; amount = 80 }

abbrev one_open : Books
one_open = record {
  windows = (reserve_budget 100 24290 80 no_books.windows).1;
  open_reservations = held ∷ [];
  settlements = [];
}

abbrev one_settled : Books
one_settled = record {
  windows = settle_budget held 70 one_open.windows;
  open_reservations = [];
  settlements = record { month = 24290; amount = 80; actual_cost = 70 } ∷ [];
}

one_run : BudgetRun 100 no_books one_settled
unfolding reserve_budget
one_run =
    BudgetRun.next
      (BudgetRun.next BudgetRun.begin (BudgetStep.granted 24290 80 held _ no_books refl))
      (BudgetStep.settled [] [] held 70 one_open refl)

run-InBudget_example : InBudget 100 one_settled
run-InBudget_example =
    run-InBudget (record { opened = tt; accounted = λ m. refl; capped = λ m. omega arith }) one_run

abbrev eight : List ℕ
eight = 1 ∷ 2 ∷ 3 ∷ 4 ∷ 5 ∷ 6 ∷ 7 ∷ 8 ∷ []

-- A digest of 32 numbers for each seed and counter.
abbrev digest : (seed counter : ℕ) → List ℕ
digest seed counter = map (λ n. n + seed + counter) (eight ++ eight ++ eight ++ eight)
