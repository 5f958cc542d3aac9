-- ===== src/Batch/Tests.antt =====
-- Batches of three documents, and the laws at these inputs.
use render_cart.Prelude.{◌*◌, ◌↔◌, ℕ, ◌≡◌, refl, true, false, none, some, List, [], ◌∷◌, sum_by}
use render_cart.Access.{Level}
use render_cart.Registry.{ToolManifest, Category, Runtime, Queue, JobTier}
use render_cart.Batch.{ItemResult, item_output, Entry, archive, run_batch, execution_timeout}
use render_cart.Batch.Archive.{Archived, run_batch-archive}

abbrev rotate : ToolManifest
rotate = record {
  slug = "rotate-pdf";
  category = Category.pdf;
  min_level = Level.guest;
  restricted = false;
  hidden = false;
  batchable = true;
  batch_max_files = 20;
  runtime = Runtime.cpu;
  queue = some Queue.cpu_default;
  inputs = none;
  limits = [];
  credit_cost = none;
  credit_cost_per_10_pages = 0;
  credit_cost_per_page = 0;
  credit_cost_per_100_mb = 0;
  credit_cost_per_minute = 0;
  credit_cost_per_10_minutes = 0;
  credit_cost_per_10000_words = 0;
  credit_cost_per_1000_words = 0;
  credit_cost_per_1000_chars = 0;
  job_tier = some JobTier.small;
  preview_then_pay = false;
  timeout_s = 300;
  has_runner = true;
}

abbrev merge : ToolManifest
merge = record rotate { slug = "merge-pdf" }

abbrev files : List ℕ
files = 11 ∷ 12 ∷ 13 ∷ []

-- The size of an output tells which files it was made of.
abbrev rotated : List ℕ → ItemResult
rotated g = item_output record {
  has_locked = false;
  inside_directory = true;
  size = sum_by (λ x. x * 100) g;
  filename = "rotated.pdf";
}

abbrev entry : (index size : ℕ) → Entry
entry index size = record { index = index; filename = "rotated.pdf"; size = size }

abbrev entries : List Entry
entries = entry 1 1100 ∷ entry 2 1200 ∷ entry 3 1300 ∷ []

execution_timeout-pairs : execution_timeout merge 9 true ≡ 1200
unfolding execution_timeout
execution_timeout-pairs = refl

run_batch-entries : run_batch rotate rotated files ≡ archive entries
unfolding run_batch
run_batch-entries = refl

-- The tool that merges takes two files at a time.
run_batch-merged :
    run_batch merge rotated (11 ∷ 12 ∷ 13 ∷ 14 ∷ []) ≡ archive (entry 1 2300 ∷ entry 2 2700 ∷ [])
unfolding run_batch
run_batch-merged = refl

run_batch-archive_example :
    run_batch rotate rotated files ≡ archive entries ↔ Archived rotate rotated files entries
run_batch-archive_example = run_batch-archive rotate rotated files entries
