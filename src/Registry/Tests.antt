-- ===== src/Registry/Tests.antt =====
-- Two manifests, a registry of them, prices, and the laws at these inputs.
use render_cart.Prelude.{◌≡◌, refl, true, false, none, some, List, [], ◌∷◌}
use render_cart.Access.{Level}
use render_cart.Registry.{
  ToolManifest, Category, Runtime, Queue, JobTier, refused, duplicate_slug, validate,
  batch_with_preview, build_registry,
}
use render_cart.Registry.Prices.{Measures}
use render_cart.Registry.Catalog.{SoundRegistry, build_registry-SoundRegistry}

abbrev pub to_word : ToolManifest
to_word = record {
  slug = "pdf-to-word";
  category = Category.pdf;
  min_level = Level.guest;
  restricted = false;
  hidden = false;
  batchable = true;
  batch_max_files = 20;
  runtime = Runtime.cpu;
  queue = some Queue.cpu_heavy;
  inputs = none;
  limits = [];
  credit_cost = none;
  credit_cost_per_10_pages = 1;
  credit_cost_per_page = 0;
  credit_cost_per_100_mb = 0;
  credit_cost_per_minute = 0;
  credit_cost_per_10_minutes = 0;
  credit_cost_per_10000_words = 0;
  credit_cost_per_1000_words = 0;
  credit_cost_per_1000_chars = 0;
  job_tier = some JobTier.medium;
  preview_then_pay = false;
  timeout_s = 300;
  has_runner = true;
}

abbrev pub summarizer : ToolManifest
summarizer = record to_word {
  slug = "summarizer";
  category = Category.writing;
  batchable = false;
  credit_cost = some 2;
  credit_cost_per_10_pages = 0;
  credit_cost_per_10000_words = 1;
}

abbrev tools : List ToolManifest
tools = to_word ∷ summarizer ∷ []

validate-preview_batch :
    validate (record to_word { preview_then_pay = true }) ≡ some batch_with_preview
unfolding validate
validate-preview_batch = refl

build_registry-duplicate :
    build_registry (to_word ∷ to_word ∷ []) ≡ refused (duplicate_slug "pdf-to-word")
unfolding build_registry
build_registry-duplicate = refl

build_registry_example : SoundRegistry tools × (tools ≡ tools)
unfolding build_registry
build_registry_example = build_registry-SoundRegistry tools tools refl

abbrev essay : Measures
essay = record {
  pages_of_inputs = [];
  page_count = 3;
  total_bytes = 5000;
  total_duration = 0;
  word_count = 12000;
  character_count = 70000;
}

abbrev book : Measures
book = record essay { word_count = 90000 }
