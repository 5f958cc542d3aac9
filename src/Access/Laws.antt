-- ===== src/Access/Laws.antt =====
-- What an access level is worth: which rows grant it.
use render_cart.Prelude.{
  ℕ, ◌≡◌, refl, ap, ◌∙◌, inl, inr, Bool, true, ◌&&◌, Option, none, some, List, [], ◌∷◌, arith, ltb,
  if◌then◌else◌, later_than, filter_by, any_of, is_some, Option-cases,
}
use render_cart.Access.{
  Level, StaffRole, entitling, entitling?, staff_level, plan_level, max_level, Subscription,
  DayPass, subscription_matches, day_pass_matches, latest, subscription_row, day_pass_row,
  subject_for_user, subject_of_rows, user_level,
}

module _ {ℓ} {A : Type ℓ} (key : A → ℕ) (p : A → Bool) where
  -- The query finds a row exactly when some row matches, and what it finds matches.
  latest-is_some : (xs : List A) → is_some (latest key (filter_by p xs)) ≡ any_of p xs
  unfolding latest
  latest-is_some [] = refl
  latest-is_some (x ∷ xs) = ground (arith, latest-is_some xs)

  latest-matches : (xs : List A) (y : A) → latest key (filter_by p xs) ≡ some y → p y ≡ true
  unfolding latest
  latest-matches [] y e = ground arith
  latest-matches (x ∷ xs) y e = elim (Option-cases (latest key (filter_by p xs))) [
    | inl no_row ↦ ground arith
    | inr (z, found) ↦ ground (arith, latest-matches xs z found)
  ]

-- The plan that the rows of a user give, by whether some row matches.
abbrev pub plan_of_rows : List Subscription → List DayPass → ℕ → ℕ → Level
plan_of_rows subs passes u now =
    if any_of (subscription_matches u now) subs
    then Level.pro
    else if any_of (day_pass_matches u now) passes
    then Level.day_pass
    else Level.free

plan_level-found :
    (role : StaffRole) (now : ℕ) (row : Option Subscription) (pass : Option DayPass)
    → ((s : Subscription)
        → row ≡ some s
        → (entitling s.status && later_than s.current_period_end now) ≡ true)
    → ((d : DayPass) → pass ≡ some d → ltb now d.ends_at ≡ true)
    → plan_level (subject_of_rows role row pass) now
      ≡ (if is_some row then Level.pro else if is_some pass then Level.day_pass else Level.free)
unfolding plan_level subject_of_rows entitling?
plan_level-found role now none none hs hp = refl
plan_level-found role now none (some d) hs hp = rw (hp d refl)
plan_level-found role now (some s) pass hs hp = rw (hs s refl)

subscription_matches-live :
    (u now : ℕ) (s : Subscription)
    → subscription_matches u now s ≡ true
    → (entitling s.status && later_than s.current_period_end now) ≡ true
unfolding subscription_matches
subscription_matches-live u now s h = ground arith

day_pass_matches-live :
    (u now : ℕ) (d : DayPass) → day_pass_matches u now d ≡ true → ltb now d.ends_at ≡ true
unfolding day_pass_matches
day_pass_matches-live u now d h = ground arith

-- The level of a user is the better of the staff level and the plan: pro exactly when a
-- subscription of the user is entitling and unexpired, else day_pass exactly when a pass is current.
pub user_level_lem :
    (subs : List Subscription) (passes : List DayPass) (u : ℕ) (role : StaffRole) (now : ℕ)
    → user_level subs passes u role now
      ≡ max_level (plan_of_rows subs passes u now) (staff_level role)
unfolding user_level subject_for_user
user_level_lem subs passes u role now =
    ap (λ plan. max_level plan (staff_level role))
      (plan_level-found role now (subscription_row subs u now) (day_pass_row passes u now)
          (λ s e. subscription_matches-live u now s (latest-matches _ _ subs s e))
          (λ d e. day_pass_matches-live u now d (latest-matches _ _ passes d e))
        ∙ rows)
  where
    rows :
        (if is_some (subscription_row subs u now)
          then Level.pro
          else if is_some (day_pass_row passes u now)
          then Level.day_pass
          else Level.free)
        ≡ plan_of_rows subs passes u now
    rows = rw (
      latest-is_some _ (subscription_matches u now) subs,
      latest-is_some _ (day_pass_matches u now) passes,
    )
