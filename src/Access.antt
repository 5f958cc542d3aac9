-- ===== src/Access.antt =====
-- backend/src/rendercart/core/access.py and billing/access.py: the access level of a caller, from
-- the staff role and the subscription and day-pass rows. Times are seconds since a fixed origin.
pub mod Laws
mod Tests
use text.Mathlib.Text.{◌==◌ as str_eq}
use render_cart.Prelude.{
  ℕ, String, Bool, true, false, ◌&&◌, ◌||◌, Option, none, some, List, [], ◌∷◌, ltb, leb,
  if◌then◌else◌, ◌==◌, later_than, filter_by,
}

pub data Level : Type 0 where
  guest free day_pass pro admin super_admin : Level

-- The values of the IntEnum.
abbrev pub rank : Level → ℕ
rank guest = 0
rank free = 1
rank day_pass = 2
rank pro = 3
rank admin = 4
rank super_admin = 5

-- `a < b` on levels.
abbrev pub below : Level → Level → Bool
below a b = ltb (rank a) (rank b)

pub data StaffRole : Type 0 where
  user admin super_admin : StaffRole

pub record AccessSubject : Type 0 where
  pub staff_role : StaffRole
  pub subscription_status : Option String
  pub subscription_period_end : Option ℕ
  pub day_pass_ends_at : Option ℕ

-- `status in {"active", "trialing", "past_due"}`
pub entitling : String → Bool
entitling s = str_eq s "active" || str_eq s "trialing" || str_eq s "past_due"

pub entitling? : Option String → Bool
entitling? none = false
entitling? (some s) = entitling s

unfoldable pub staff_level : StaffRole → Level
staff_level StaffRole.user = free
staff_level StaffRole.admin = Level.admin
staff_level StaffRole.super_admin = Level.super_admin

pub plan_level : AccessSubject → ℕ → Level
unfolding entitling?
plan_level s now =
    if entitling? s.subscription_status && later_than s.subscription_period_end now
    then pro
    else if later_than s.day_pass_ends_at now
    then day_pass
    else free

-- `max`, which keeps the first of two equal arguments.
abbrev pub max_level : Level → Level → Level
max_level a b = if below a b then b else a

pub effective_level : Option AccessSubject → ℕ → Level
unfolding plan_level staff_level
effective_level none now = guest
effective_level (some s) now = max_level (plan_level s now) (staff_level s.staff_role)

pub record Subscription : Type 0 where
  pub user_id : ℕ
  pub status : String
  pub current_period_end : Option ℕ

pub record DayPass : Type 0 where
  pub user_id : Option ℕ
  pub starts_at : ℕ
  pub ends_at : ℕ

abbrev pub is_user : ℕ → Option ℕ → Bool
is_user u none = false
is_user u (some v) = v == u

pub subscription_matches : ℕ → ℕ → Subscription → Bool
subscription_matches u now s =
    s.user_id == u && entitling s.status && later_than s.current_period_end now

pub day_pass_matches : ℕ → ℕ → DayPass → Bool
day_pass_matches u now d = is_user u d.user_id && leb d.starts_at now && ltb now d.ends_at

abbrev end_or_zero : Option ℕ → ℕ
end_or_zero none = 0
end_or_zero (some t) = t

-- ORDER BY key DESC LIMIT 1: the first row whose key is greatest.
pub latest {ℓ} : {A : Type ℓ} → (A → ℕ) → List A → Option A
latest key [] = none
latest key (x ∷ xs) = elim (latest key xs) [
  | none ↦ some x
  | some y ↦ if ltb (key x) (key y) then some y else some x
]

abbrev pub subscription_row : List Subscription → ℕ → ℕ → Option Subscription
subscription_row subs u now =
    latest (λ s. end_or_zero s.current_period_end) (filter_by (subscription_matches u now) subs)

abbrev pub day_pass_row : List DayPass → ℕ → ℕ → Option DayPass
day_pass_row passes u now = latest (λ d. d.ends_at) (filter_by (day_pass_matches u now) passes)

abbrev subscription_fields : Option Subscription → Option String × Option ℕ
subscription_fields none = (none, none)
subscription_fields (some s) = (some s.status, s.current_period_end)

abbrev pass_end : Option DayPass → Option ℕ
pass_end none = none
pass_end (some d) = some d.ends_at

-- The two rows that the queries found, or None for each.
pub subject_of_rows : StaffRole → Option Subscription → Option DayPass → AccessSubject
subject_of_rows role row pass =
    let (status, period_end) = subscription_fields row in
    record {
      staff_role = role;
      subscription_status = status;
      subscription_period_end = period_end;
      day_pass_ends_at = pass_end pass;
    }

pub subject_for_user :
    List Subscription → List DayPass → (user_id : ℕ) → StaffRole → (now : ℕ) → AccessSubject
unfolding subject_of_rows
subject_for_user subs passes u role now =
    subject_of_rows role (subscription_row subs u now) (day_pass_row passes u now)

pub user_level : List Subscription → List DayPass → (user_id : ℕ) → StaffRole → (now : ℕ) → Level
unfolding subject_for_user effective_level
user_level subs passes u role now =
    effective_level (some (subject_for_user subs passes u role now)) now
