-- ===== src/Registry.antt =====
-- backend/src/rendercart/registry/models.py and registry/loader.py: tool manifests, their checks,
-- and the registry that is built of them; and the access test of jobs/router.py.
pub mod Prices
pub mod Catalog
mod Tests
use text.Mathlib.Text.{◌==◌ as str_eq}
use render_cart.Prelude.{
  ℕ, String, Bool, true, false, not, ◌&&◌, ◌||◌, Option, none, some, List, [], ◌∷◌, ◌++◌,
  if◌then◌else◌, ◌==◌, is_some, filter_by,
}
use render_cart.Access.{Level, rank, below}

pub data Category : Type 0 where
  pdf image audio_video writing business developer vault : Category

pub data Runtime : Type 0 where
  client cpu gpu llm : Runtime

pub data Queue : Type 0 where
  cpu_default cpu_heavy cpu_sandbox : Queue
  gpu_image gpu_image_priority gpu_audio gpu_audio_priority gpu_embed : Queue

pub data JobTier : Type 0 where
  small medium large : JobTier

-- `Limit`: a number that is not set is none. The class demands at least 1 of each.
pub record Limit : Type 0 where
  pub count_per_day : Option ℕ
  pub count_per_month : Option ℕ
  pub fair_use_per_hour : Option ℕ
  pub max_files : Option ℕ
  pub max_total_mb : Option ℕ
  pub max_pages : Option ℕ
  pub max_minutes_per_month : Option ℕ
  pub max_characters_per_job : Option ℕ
  pub max_words_per_job : Option ℕ
  pub word_count_per_day : Option ℕ

-- `FileInput`; the dictionaries by level are association lists.
pub record FileInput : Type 0 where
  pub accept : List String
  pub min_files : ℕ
  pub max_files : List (Level × ℕ)
  pub max_total_mb : List (Level × ℕ)

-- The fields of `ToolManifest` that the job system reads; `has_runner` is `runner is not None`.
pub record ToolManifest : Type 0 where
  pub slug : String
  pub category : Category
  pub min_level : Level
  pub restricted : Bool
  pub hidden : Bool
  pub batchable : Bool
  pub batch_max_files : ℕ
  pub runtime : Runtime
  pub queue : Option Queue
  pub inputs : Option FileInput
  pub limits : List (Level × Limit)
  pub credit_cost : Option ℕ
  pub credit_cost_per_10_pages : ℕ
  pub credit_cost_per_page : ℕ
  pub credit_cost_per_100_mb : ℕ
  pub credit_cost_per_minute : ℕ
  pub credit_cost_per_10_minutes : ℕ
  pub credit_cost_per_10000_words : ℕ
  pub credit_cost_per_1000_words : ℕ
  pub credit_cost_per_1000_chars : ℕ
  pub job_tier : Option JobTier
  pub preview_then_pay : Bool
  pub timeout_s : ℕ
  pub has_runner : Bool

pub data ManifestError : Type 0 where
  restricted_not_hidden gpu_needs_gpu_queue credit_cost_missing client_needs_runner : ManifestError
  batch_not_pdf batch_with_preview : ManifestError

abbrev pub is_super_admin : Level → Bool
is_super_admin Level.super_admin = true
is_super_admin _ = false

abbrev pub is_gpu_queue : Option Queue → Bool
is_gpu_queue (some gpu_image) = true
is_gpu_queue (some gpu_image_priority) = true
is_gpu_queue (some gpu_audio) = true
is_gpu_queue (some gpu_audio_priority) = true
is_gpu_queue (some gpu_embed) = true
is_gpu_queue _ = false

abbrev pub is_gpu : Runtime → Bool
is_gpu gpu = true
is_gpu _ = false

abbrev pub is_client : Runtime → Bool
is_client client = true
is_client _ = false

-- `runtime in {Runtime.GPU, Runtime.LLM}`
abbrev pub is_metered : Runtime → Bool
is_metered gpu = true
is_metered llm = true
is_metered _ = false

abbrev pub is_pdf : Category → Bool
is_pdf pdf = true
is_pdf _ = false

-- A restricted tool that is open to somebody below a super admin.
abbrev pub leaks : ToolManifest → Bool
leaks t = t.restricted && (not (is_super_admin t.min_level) || not t.hidden)

-- `validate_security_and_runtime`: the first check that fails.
unfoldable pub validate : ToolManifest → Option ManifestError
validate t =
    if leaks t
    then some restricted_not_hidden
    else if is_gpu t.runtime && not (is_gpu_queue t.queue)
    then some gpu_needs_gpu_queue
    else if is_metered t.runtime && not (is_some t.credit_cost)
    then some credit_cost_missing
    else if is_client t.runtime && not t.has_runner
    then some client_needs_runner
    else if t.batchable && not (is_pdf t.category)
    then some batch_not_pdf
    else if t.batchable && t.preview_then_pay
    then some batch_with_preview
    else none

-- The dict from slugs to manifests, in the order of insertion.
abbrev pub Registry : Type 0
Registry = List ToolManifest

abbrev pub lookup : String → Registry → Option ToolManifest
lookup slug [] = none
lookup slug (t ∷ ts) = if str_eq t.slug slug then some t else lookup slug ts

pub data LoadError : Type 0 where
  duplicate_slug restricted_tool_exposed : String → LoadError

pub data Loaded : Type 0 where
  loaded : Registry → Loaded
  refused : LoadError → Loaded

-- The loop of `build_registry`, on the manifests that are left.
unfoldable pub build_from : Registry → List ToolManifest → Loaded
build_from registry [] = loaded registry
build_from registry (m ∷ ms) =
    let rest = build_from (registry ++ m ∷ []) ms in
    if is_some (lookup m.slug registry)
    then refused (duplicate_slug m.slug)
    else if leaks m
    then refused (restricted_tool_exposed m.slug)
    else rest

unfoldable pub build_registry : List ToolManifest → Loaded
unfolding build_from
build_registry manifests = build_from [] manifests

unfoldable pub visible_tools : Registry → Level → List ToolManifest
visible_tools registry level =
    filter_by (λ t. not (below level t.min_level) && (not t.restricted || is_super_admin level))
      registry

-- `ToolOverride`, as far as access is concerned.
pub record ToolOverride : Type 0 where
  pub slug : String
  pub enabled : Bool

abbrev pub override_of : String → List ToolOverride → Option ToolOverride
override_of slug [] = none
override_of slug (o ∷ os) = if str_eq o.slug slug then some o else override_of slug os

abbrev pub disabled : Option ToolOverride → Bool
disabled none = false
disabled (some o) = not o.enabled

-- `_tool_access` of jobs/router.py; none is the 404.
unfoldable pub tool_access : Registry → List ToolOverride → String → Level → Option ToolManifest
tool_access registry overrides slug level = elim (lookup slug registry) [
  | none ↦ none
  | some tool ↦
      if tool.hidden || below level tool.min_level
      then none
      else if disabled (override_of slug overrides)
      then none
      else some tool
]
