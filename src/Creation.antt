-- ===== src/Creation.antt =====
-- `create_job` of backend/src/rendercart/jobs/router.py: its rows and its request here, the guards
-- in Creation/Guards, and the slot of a quota, the credits, the row and the message in
-- Creation/Place. The options of a tool are given by what
-- their validation yields; the entries that the job system does not read are left out.
pub mod Guards
pub mod Place
pub mod Slots
pub mod Uploads
pub mod Outcome
mod Tests
use render_cart.Prelude.{
  ℕ, max, String, Bool, false, not, Option, none, some, List, [], ◌∷◌, if◌then◌else◌, ◌==◌,
}
use render_cart.Access.{Level, rank, below}
use render_cart.Quota.{Redis, increment_window}
use render_cart.Prelude.Int.{ltb_ℤ, pos}
use render_cart.Credits.{Wallet}
use render_cart.Registry.{
  ToolManifest, Registry, JobTier, small, medium, large, Limit, ToolOverride,
}
use render_cart.Jobs.{Job, JobOptions}

-- The columns of `Upload` that the handler reads or writes.
pub record Upload : Type 0 where
  pub id : ℕ
  pub user_id : Option ℕ
  pub guest_id : Option String
  pub content_type : String
  pub size_bytes : ℕ
  pub expires_at : ℕ

-- The rows of one caller, the counters, and the jobs that were handed to the broker.
pub record Rows (redis : Redis) : Type 0 where
  pub wallet : Wallet
  pub store : redis.Store
  pub jobs : List Job
  pub uploads : List Upload
  pub sent : List ℕ

-- The subject of a request: a user, or a guest.
pub record Caller : Type 0 where
  pub user : Option ℕ
  pub guest_id : Option String
  pub level : Level

-- The body, with what its options validate to (none for a ValueError), the entries that the handler
-- reads of them, and the fields of the options class.
pub record JobRequest : Type 0 where
  pub slug : String
  pub upload_ids : List ℕ
  pub batch_mode : Bool
  pub paid_tier : Option JobTier
  pub raw_options : JobOptions
  pub has_options_class : Bool
  pub parsed_options : Option JobOptions
  pub fields : String → Bool
  pub template_classic : Bool
  pub rewrite_with_ai : Bool
  pub consented : Bool

-- What else a call reads: the registry and the overrides with their limits for a level, the clock,
-- the keys of the counters, the fresh ids, and whether the outside agrees: the anti-bot check, the
-- caller's documents, and the broker.
pub record Creation : Type 0 where
  pub registry : Registry
  pub overrides : List ToolOverride
  pub override_limit : Level → Option Limit
  pub now : ℕ
  pub window_key : String
  pub daily_key : String
  pub hourly_key : String
  pub monthly_key : String
  pub seconds_until_next_month : ℕ
  pub job_id : ℕ
  pub hold_id : ℕ
  pub release_id : ℕ
  pub human : Bool
  pub has_active_document : Bool
  pub broker_works : Bool

-- An HTTPException: its status and detail.
abbrev pub Refusal : Type 0
Refusal = ℕ × String

-- `if test: raise HTTPException(...)`, one after the other.
abbrev pub first_refusal : List (Bool × ℕ × String) → Option Refusal
first_refusal [] = none
first_refusal ((test, status, detail) ∷ guards) =
    if test then some (status, detail) else first_refusal guards

abbrev pub at_level {ℓ} : {A : Type ℓ} → Level → List (Level × A) → Option A
at_level level [] = none
at_level level ((l, x) ∷ xs) = if rank l == rank level then some x else at_level level xs

abbrev pub or_else {ℓ} : {A : Type ℓ} → Option A → Option A → Option A
or_else none o = o
or_else (some x) o = some x

abbrev pub fallback_level : Level → Level
fallback_level level =
    if not (below level Level.day_pass)
    then Level.pro
    else if rank level == rank Level.free
    then Level.free
    else Level.guest

-- `_tool_limit`
unfoldable pub tool_limit : Creation → ToolManifest → Level → Option Limit
tool_limit c tool level =
    or_else (c.override_limit level)
      (or_else (at_level level tool.limits) (at_level (fallback_level level) tool.limits))

abbrev pub greatest : (level : Level) → Option ℕ → List (Level × ℕ) → Option ℕ
greatest level best [] = best
greatest level best ((role, n) ∷ xs) =
    if below level role
    then greatest level best xs
    else greatest level (some (elim best [ none ↦ n | some m ↦ max m n ])) xs

abbrev pub or_default : ℕ → Option ℕ → ℕ
or_default d none = d
or_default d (some n) = n

-- `_max_for`: the greatest number of the levels up to the given one.
unfoldable pub max_for : List (Level × ℕ) → Level → (default : ℕ) → ℕ
max_for mapping level default = or_default default (greatest level none mapping)

abbrev pub tier_code : JobTier → ℕ
tier_code small = 0
tier_code medium = 1
tier_code large = 2

abbrev pub same_tier : Option JobTier → JobTier → Bool
same_tier none t = false
same_tier (some s) t = tier_code s == tier_code t

module _ (redis : Redis) where
  -- The guards on a guest: the anti-bot check, and twenty jobs of a network in an hour.
  unfoldable pub guest_gate : Creation → Option ℕ → Rows redis → Option Refusal × Rows redis
  guest_gate c (some user) r = (none, r)
  guest_gate c none r =
      let (count, store) = increment_window redis c.window_key 3600 r.store in
      if not c.human
      then (some (403, "Complete the anti-bot check before starting a job"), r)
      else if ltb_ℤ (pos 20) count
      then (
        some (429, "Too many jobs from this network. Try again later."),
        record r { store = store },
      )
      else (none, record r { store = store })
