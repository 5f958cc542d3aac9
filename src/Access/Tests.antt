-- ===== src/Access/Tests.antt =====
-- Levels of concrete users, and the laws at these inputs.
use render_cart.Prelude.{◌≡◌, refl, none, some, [], ◌∷◌}
use render_cart.Access.{
  Level, StaffRole, AccessSubject, entitling, staff_level, Subscription, DayPass,
  subscription_matches, day_pass_matches, latest, max_level, user_level,
}
use render_cart.Access.Laws.{plan_of_rows, user_level_lem}

abbrev dunning : Subscription
dunning = record { user_id = 7; status = "past_due"; current_period_end = some 500 }

abbrev canceled : Subscription
canceled = record { user_id = 7; status = "canceled"; current_period_end = some 900 }

abbrev trip : DayPass
trip = record { user_id = some 7; starts_at = 400; ends_at = 600 }

-- Access lasts through the dunning window, then the day pass alone is left, then nothing.
user_level-dunning :
    user_level (canceled ∷ dunning ∷ []) (trip ∷ []) 7 StaffRole.user 450 ≡ Level.pro
unfolding user_level latest subscription_matches day_pass_matches entitling
user_level-dunning = refl

user_level-trip :
    user_level (canceled ∷ dunning ∷ []) (trip ∷ []) 7 StaffRole.user 550 ≡ Level.day_pass
unfolding user_level latest subscription_matches day_pass_matches entitling
user_level-trip = refl

user_level_example :
    user_level (canceled ∷ dunning ∷ []) (trip ∷ []) 7 StaffRole.admin 450
    ≡ max_level
        (plan_of_rows (canceled ∷ dunning ∷ []) (trip ∷ []) 7 450)
        (staff_level StaffRole.admin)
user_level_example = user_level_lem (canceled ∷ dunning ∷ []) (trip ∷ []) 7 StaffRole.admin 450

abbrev subject : AccessSubject
subject = record {
  staff_role = StaffRole.user;
  subscription_status = some "active";
  subscription_period_end = some 500;
  day_pass_ends_at = none;
}
