-- ===== src/Creation/Tests.antt =====
-- A request for a rotation by a user with credits, with the broker up and down, and the law at it.
use render_cart.Prelude.{Bool, ◌≡◌, refl, true, false, none, some, [], ◌∷◌, ◌++◌, arith}
use render_cart.Prelude.Int.{pos, ◌+ℤ◌, ◌-ℤ◌}
use render_cart.Access.{Level}
use render_cart.Quota.{reserve_counter, increment_window}
use render_cart.Quota.Memory.{memory}
use render_cart.Credits.{Wallet, usable_lots, order_lots}
use render_cart.Credits.Reserve.{hold_credits, hold_loop}
use render_cart.Credits.Books.{Books}
use render_cart.Registry.{ToolManifest, Category, Runtime, Queue, JobTier, Limit, tool_access}
use render_cart.Jobs.{JobState}
use render_cart.Creation.{Rows, Caller, Creation, JobRequest, guest_gate, tool_limit, max_for}
use render_cart.Creation.Guards.{choose_tool, validate}
use render_cart.Creation.Place.{
  accepted, refused, create_job, place_job, reserve_slot, creation_cost,
}
use render_cart.Creation.Uploads.{
  UploadRequest, presigned, create_upload, new_upload, Grantable, create_upload-Grantable,
}
use render_cart.Creation.Outcome.{Placed, create_job-Placed}

abbrev limit : Limit
limit = record {
  count_per_day = some 3;
  count_per_month = none;
  fair_use_per_hour = none;
  max_files = some 1;
  max_total_mb = some 5;
  max_pages = none;
  max_minutes_per_month = none;
  max_characters_per_job = none;
  max_words_per_job = none;
  word_count_per_day = none;
}

abbrev rotate : ToolManifest
rotate = record {
  slug = "rotate-pdf";
  category = Category.pdf;
  min_level = Level.guest;
  restricted = false;
  hidden = false;
  batchable = true;
  batch_max_files = 20;
  runtime = Runtime.cpu;
  queue = some Queue.cpu_default;
  inputs = some (record {
    accept = "application/pdf" ∷ [];
    min_files = 1;
    max_files = [];
    max_total_mb = [];
  });
  limits = (Level.pro, limit) ∷ [];
  credit_cost = some 4;
  credit_cost_per_10_pages = 0;
  credit_cost_per_page = 0;
  credit_cost_per_100_mb = 0;
  credit_cost_per_minute = 0;
  credit_cost_per_10_minutes = 0;
  credit_cost_per_10000_words = 0;
  credit_cost_per_1000_words = 0;
  credit_cost_per_1000_chars = 0;
  job_tier = some JobTier.small;
  preview_then_pay = false;
  timeout_s = 300;
  has_runner = true;
}

abbrev call : (broker_works : Bool) → Creation
call broker_works = record {
  registry = rotate ∷ [];
  overrides = [];
  override_limit = λ level. none;
  now = 1000;
  window_key = "jobs:guest:ip:unknown";
  daily_key = "quota:daily:2026-01-01:u:7:rotate-pdf";
  hourly_key = "quota:hourly:2026-01-01T00:u:7:rotate-pdf";
  monthly_key = "quota:monthly:2026-01:u:7:rotate-pdf";
  seconds_until_next_month = 2764800;
  job_id = 8;
  hold_id = 100;
  release_id = 101;
  human = true;
  has_active_document = false;
  broker_works = broker_works;
}

abbrev who : Caller
who = record { user = some 7; guest_id = none; level = Level.pro }

abbrev request : JobRequest
request = record {
  slug = "rotate-pdf";
  upload_ids = 5 ∷ [];
  batch_mode = false;
  paid_tier = none;
  raw_options = record {
    bill_credits = false;
    batch_mode = false;
    max_minutes_per_month = none;
    max_characters = none;
    max_words = none;
    max_pages = none;
    word_count_per_day = none;
  };
  has_options_class = false;
  parsed_options = none;
  fields = λ name. false;
  template_classic = true;
  rewrite_with_ai = false;
  consented = false;
}

abbrev wallet : Wallet
wallet = record {
  account = some (record { balance = pos 10; held = 0 });
  lots =
      record {
        id = 1;
        source_ledger_id = 11;
        total = 10;
        remaining = 10;
        held = 0;
        expires_at = none;
        created_at = 50;
      }
      ∷ [];
  reservations = [];
  ledger = [];
}

wallet-Books : Books wallet
wallet-Books = record {
  balanced = refl;
  held = refl;
  covered = omega arith;
  known = tt;
  distinct = omega arith;
}

abbrev rows : Rows memory
rows = record {
  wallet = wallet;
  store = λ k. none;
  jobs = [];
  uploads =
      record {
        id = 5;
        user_id = some 7;
        guest_id = none;
        content_type = "application/pdf";
        size_bytes = 4096;
        expires_at = 2000;
      }
      ∷ [];
  sent = [];
}

create_job-queued : (create_job memory (call true) who request rows).0 ≡ accepted JobState.queued
unfolding create_job guest_gate choose_tool tool_access validate tool_limit max_for place_job
    reserve_slot reserve_counter hold_credits creation_cost ◌+ℤ◌ ◌-ℤ◌ hold_loop usable_lots
    order_lots
create_job-queued = refl

create_job-unavailable :
    (create_job memory (call false) who request rows).0
    ≡ refused (503, "Job queue is temporarily unavailable")
unfolding create_job guest_gate choose_tool tool_access validate tool_limit max_for place_job
    reserve_slot reserve_counter hold_credits creation_cost ◌+ℤ◌ ◌-ℤ◌ hold_loop usable_lots
    order_lots
create_job-unavailable = refl

create_job-Placed_example :
    Placed memory (call false) rows (create_job memory (call false) who request rows)
create_job-Placed_example =
    create_job-Placed memory (call false) who request rows 7 refl wallet-Books tt λ k. (0, refl)

abbrev upload_request : UploadRequest
upload_request = record {
  tool_slug = "rotate-pdf";
  content_type = "application/pdf";
  size_bytes = 5242880;
  upload_id = 6;
  window_key = "upload:presign:ip:unknown";
}

create_upload-granted :
    (create_upload memory (call true) who upload_request rows).0
    ≡ presigned (new_upload (call true) who upload_request)
unfolding create_upload increment_window tool_access tool_limit max_for ◌+ℤ◌
create_upload-granted = refl

create_upload-Grantable_example :
    ((create_upload memory (call true) who upload_request rows).1.uploads
      ≡ rows.uploads ++ new_upload (call true) who upload_request ∷ [])
    × Grantable (call true) who "rotate-pdf" (new_upload (call true) who upload_request)
create_upload-Grantable_example =
    create_upload-Grantable memory (call true) who upload_request rows
      (new_upload (call true) who upload_request) create_upload-granted
