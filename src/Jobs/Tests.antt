-- ===== src/Jobs/Tests.antt =====
-- A queued job of a tool with prices by words, its execution with different outcomes of the tool,
-- and the laws at these inputs.
use render_cart.Prelude.{ℕ, ◌≡◌, refl, inr, true, false, none, some, List, [], ◌∷◌, arith}
use render_cart.Prelude.Int.{pos, ◌+ℤ◌, ◌-ℤ◌}
use render_cart.Access.{Level}
use render_cart.Quota.{reserve_amount, reserve_amount_script}
use render_cart.Quota.Memory.{Keys, memory}
use render_cart.Credits.{Lot, Wallet, usable_lots, order_lots, insert_lot}
use render_cart.Credits.Reserve.{reserve_dynamic_credits, commit_hold, allocate}
use render_cart.Credits.Settle.{finish_credits, settle_credit_reservations}
use render_cart.Registry.Prices.{
  dynamic_cost, credits_for_bytes, bands, credits_for_duration, credits_for_ten_minute_bands,
  credits_for_word_bands, credits_for_1000_word_bands, credits_for_text_characters,
}
use render_cart.Registry.{ToolManifest, Category, Runtime, Queue, JobTier}
use render_cart.Jobs.{Job, queued, Desk, no_artifact, KeyNames, reserve_word_quota}
use render_cart.Jobs.Ending.{Ending, finish_job}
use render_cart.Jobs.Execute.{
  Upload, Run, RunResult, tool_output, run_raises, prepared, ToolOutput, receive_files,
  prepare_inputs, check_result, charge_job, failure_code,
}
use render_cart.Jobs.Execute.Running.{RunIds, execute_tool, process_job, admit_inputs}
use render_cart.Jobs.Settled.{Funded, EndsClosed, execute_tool-Closed}

abbrev word_tool : ToolManifest
word_tool = record {
  slug = "translate";
  category = Category.writing;
  min_level = Level.free;
  restricted = false;
  hidden = false;
  batchable = false;
  batch_max_files = 1;
  runtime = Runtime.llm;
  queue = some Queue.cpu_default;
  inputs = none;
  limits = [];
  credit_cost = some 0;
  credit_cost_per_10_pages = 0;
  credit_cost_per_page = 0;
  credit_cost_per_100_mb = 0;
  credit_cost_per_minute = 0;
  credit_cost_per_10_minutes = 0;
  credit_cost_per_10000_words = 0;
  credit_cost_per_1000_words = 2;
  credit_cost_per_1000_chars = 0;
  job_tier = some JobTier.small;
  preview_then_pay = false;
  timeout_s = 300;
  has_runner = true;
}

abbrev pack : Lot
pack = record {
  id = 2;
  source_ledger_id = 12;
  total = 50;
  remaining = 50;
  held = 0;
  expires_at = none;
  created_at = 50;
}

abbrev wallet : Wallet
wallet = record {
  account = some (record { balance = pos 50; held = 0 });
  lots = pack ∷ [];
  reservations = [];
  ledger = [];
}

-- A job that took a slot of the daily quota, and has to reserve words and credits yet.
abbrev job : Job
job = record {
  id = 9;
  user_id = some 7;
  guest_id = none;
  tool_slug = "translate";
  payment_tier = none;
  charged_credits = 0;
  state = queued;
  options = record {
    bill_credits = true;
    batch_mode = false;
    max_minutes_per_month = none;
    max_characters = none;
    max_words = some 5000;
    max_pages = none;
    word_count_per_day = some 6000;
  };
  input_upload_ids = 4 ∷ [];
  output = no_artifact;
  locked_output = no_artifact;
  progress = 0;
  quota_reserved = true;
  quota_key = some "daily";
  duration_quota_key = none;
  duration_quota_reserved_seconds = 0;
  word_quota_key = none;
  word_quota_reserved_words = 0;
  error_code = none;
  created_at = 100;
  started_at = none;
  finished_at = none;
  expires_at = 4000;
}

abbrev used : ℕ → Keys
used n j = some (pos n)

abbrev desk : Desk memory
desk = record {
  job = job;
  wallet = wallet;
  store = used 3;
  audit_log = [];
  indexing_jobs = [];
  audit_reports = [];
}

abbrev uploads : List Upload
uploads = record { id = 4; size_bytes = 900; content_type = "text/plain" } ∷ []

abbrev names : KeyNames
names = record { duration_key = "minutes"; duration_ttl = 3000000; word_key = "words" }

abbrev ids : RunIds
ids = record { hold_id = 31; hold_now = 105; started = 101 }

abbrev ending : Ending
ending = record {
  now = 160;
  ledger_id = 32;
  level = Level.pro;
  retention = record { guest = 60; free = 60; pro = 1440 };
}

abbrev translation : ToolOutput
translation = record {
  size = 1000;
  artifact = record {
    key = some "9/out.txt";
    filename = some "out.txt";
    content_type = some "text/plain";
  };
  locked_size = none;
  locked = no_artifact;
  audit_event = none;
  has_report = false;
}

abbrev run : RunResult → Run
run result = record {
  received = λ i. record {
    content_length = some 900;
    content_type = some "text/plain";
    local_size = 900;
    verify_error = none;
  };
  preparation = prepared 1500 1;
  pages_of_inputs = [];
  durations = [];
  character_count = 0;
  progress = none;
  result = result;
}

abbrev execute : RunResult → Desk memory → Desk memory
execute result = execute_tool memory names ids (run result) ending (some word_tool) uploads

-- 1500 words are two bands of 1000, at two credits each.
execute-pays :
    let d = execute (tool_output translation) desk in
    (d.job.charged_credits ≡ 4)
    × (d.wallet.account ≡ some (record { balance = pos 46; held = 0 }))
    × (d.store "words" ≡ some (pos 1503))
unfolding execute_tool process_job admit_inputs receive_files prepare_inputs check_result charge_job
    finish_job finish_credits settle_credit_reservations reserve_word_quota reserve_amount
    reserve_amount_script reserve_dynamic_credits commit_hold allocate usable_lots order_lots
    insert_lot dynamic_cost credits_for_bytes bands credits_for_duration
    credits_for_ten_minute_bands credits_for_word_bands credits_for_1000_word_bands
    credits_for_text_characters ◌+ℤ◌ ◌-ℤ◌
execute-pays = (refl, refl, refl)

failure_code-sentence : failure_code "no such file" ≡ "processing_failed"
unfolding failure_code
failure_code-sentence = refl

job-Funded : Funded (pos 50) 0 wallet 9 0 (some 7)
job-Funded = record {
  books = record {
    balanced = refl;
    held = refl;
    covered = omega arith;
    known = tt;
    distinct = omega arith;
  };
  reserved = refl;
  balance_is = refl;
  held_is = refl;
  signed_in = refl;
}

execute_tool-Closed_example : EndsClosed (pos 50) 0 (execute (run_raises "model_busy") desk)
execute_tool-Closed_example =
    execute_tool-Closed memory names ids (run (run_raises "model_busy")) ending uploads
      (some word_tool) desk (pos 50) 0 refl job-Funded (inr (tt, refl))
