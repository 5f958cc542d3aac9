-- ===== src/Domains/Distinct.antt =====
-- What the handlers of backend/src/rendercart/business/domain_alerts.py keep true of the alerts of a
-- user: one alert for a domain, and the limit of the free plan.
use text.Mathlib.Text.{◌==◌ as str_eq}
use text.Mathlib.TextEquality.{eq_iff}
use render_cart.Prelude.{
  ℕ, ◌≤◌, ◌≡◌, sym, inl, inr, String, Bool, false, not, ◌&&◌, sum_by, max, ◌+◌, if◌then◌else◌,
  Option, none, some, List, [], ◌∷◌, ◌++◌, ◌==◌, leb, length, length-append, any_of, filter_by,
  update_by, All, All-append, arith, Bool-cases,
}
use render_cart.Access.{Level, below}
use render_cart.Domains.{DomainAlert, DomainRows, find_alert}
use render_cart.Domains.Handlers.{
  DomainAnswer, answer, refusal, DomainCaller, for_user, new_alert, create_for, switch_alert,
  update_found, delete_found, create_domain_alert, update_domain_alert, delete_domain_alert,
}

abbrev pub Distinct : List DomainAlert → Type 0
Distinct [] = Unit
Distinct (a ∷ xs) = All (λ x. ¬ (x.domain ≡ a.domain)) xs × Distinct xs

-- A request to one of the handlers.
pub data Request : Type 0 where
  create : (id : ℕ) → (domain : String) → Request
  switch : (id : ℕ) → (active : Bool) → Request
  delete : (id : ℕ) → Request

abbrev pub or_same : DomainRows → DomainAnswer → DomainRows
or_same r (answer r') = r'
or_same r (refusal e) = r

abbrev pub serve : DomainCaller × Request → DomainRows → DomainRows
serve (c, create id domain) r = or_same r (create_domain_alert c id domain r)
serve (c, switch id active) r = or_same r (update_domain_alert c id active r)
serve (c, delete id) r = or_same r (delete_domain_alert c id r)

abbrev pub serve_all : List (DomainCaller × Request) → DomainRows → DomainRows
serve_all [] r = r
serve_all (q ∷ qs) r = serve_all qs (serve q r)

-- The creations by callers with a day pass or more.
abbrev pub paid_creation : DomainCaller × Request → ℕ
paid_creation (c, create id domain) = if below c.level Level.day_pass then 0 else 1
paid_creation (c, switch id active) = 0
paid_creation (c, delete id) = 0

abbrev pub paid_creations : List (DomainCaller × Request) → ℕ
paid_creations = sum_by paid_creation

-- One alert for a domain, and at most as many as before (one, if there was none) and `paid` more.
pub record Orderly (paid : ℕ) (before after : DomainRows) : Type 0 where
  pub distinct : Distinct after.alerts
  pub limit : length after.alerts ≤ max 1 (length before.alerts) + paid

others_apart :
    (d : String) (xs : List DomainAlert)
    → any_of (λ a. str_eq a.domain d) xs ≡ false
    → All (λ x. ¬ (x.domain ≡ d)) xs
others_apart d [] e = tt
others_apart d (x ∷ xs) e = ground (arith, eq_iff x.domain d, others_apart d xs)

Distinct-snoc :
    (a : DomainAlert) (xs : List DomainAlert)
    → Distinct xs
    → All (λ x. ¬ (x.domain ≡ a.domain)) xs
    → Distinct (xs ++ a ∷ [])
Distinct-snoc a [] d h = (tt, tt)
Distinct-snoc a (x ∷ xs) d h = (
  All-append (λ y. ¬ (y.domain ≡ x.domain)) xs (a ∷ []) d.0 ((λ e. h.0 (sym e)), tt),
  Distinct-snoc a xs d.1 h.1,
)

apart-switch :
    (c : DomainCaller) (i : ℕ) (b : Bool) (d : String) (xs : List DomainAlert)
    → All (λ x. ¬ (x.domain ≡ d)) xs
    → All (λ x. ¬ (x.domain ≡ d)) (update_by (λ x. x.id == i) (switch_alert c b) xs)
apart-switch c i b d [] h = tt
apart-switch c i b d (x ∷ xs) h = elim (Bool-cases (x.id == i)) [
  | inl hit ↦ rw hit h
  | inr miss ↦ rw miss (h.0, apart-switch c i b d xs h.1)
]

Distinct-switch :
    (c : DomainCaller) (i : ℕ) (b : Bool) (xs : List DomainAlert)
    → Distinct xs
    → Distinct (update_by (λ x. x.id == i) (switch_alert c b) xs)
Distinct-switch c i b [] d = tt
Distinct-switch c i b (x ∷ xs) d = elim (Bool-cases (x.id == i)) [
  | inl hit ↦ rw hit d
  | inr miss ↦ rw miss (apart-switch c i b x.domain xs d.0, Distinct-switch c i b xs d.1)
]

length-switch :
    (c : DomainCaller) (i : ℕ) (b : Bool) (xs : List DomainAlert)
    → length (update_by (λ x. x.id == i) (switch_alert c b) xs) ≡ length xs
length-switch c i b [] = omega arith
length-switch c i b (x ∷ xs) = ground (arith, length-switch c i b xs)

apart-filter :
    (p : DomainAlert → Bool) (d : String) (xs : List DomainAlert)
    → All (λ x. ¬ (x.domain ≡ d)) xs
    → All (λ x. ¬ (x.domain ≡ d)) (filter_by p xs)
apart-filter p d [] h = tt
apart-filter p d (x ∷ xs) h = elim (Bool-cases (p x)) [
  | inl in_it ↦ rw in_it (h.0, apart-filter p d xs h.1)
  | inr out ↦ rw out (apart-filter p d xs h.1)
]

Distinct-filter :
    (p : DomainAlert → Bool) (xs : List DomainAlert) → Distinct xs → Distinct (filter_by p xs)
Distinct-filter p [] d = tt
Distinct-filter p (x ∷ xs) d = elim (Bool-cases (p x)) [
  | inl in_it ↦ rw in_it (apart-filter p x.domain xs d.0, Distinct-filter p xs d.1)
  | inr out ↦ rw out (Distinct-filter p xs d.1)
]

length-filter_by-le :
    (p : DomainAlert → Bool) (xs : List DomainAlert) → length (filter_by p xs) ≤ length xs
length-filter_by-le p [] = omega arith
length-filter_by-le p (x ∷ xs) = ground (arith, length-filter_by-le p xs)

same-Orderly : (paid : ℕ) (r : DomainRows) → Distinct r.alerts → Orderly paid r r
same-Orderly paid r d = record { distinct = d; limit = ground arith }

for_user-Orderly :
    (paid : ℕ) (c : DomainCaller) (reply : DomainAnswer) (r : DomainRows)
    → Distinct r.alerts
    → Orderly paid r (or_same r reply)
    → Orderly paid r (or_same r (for_user c reply))
for_user-Orderly paid c reply r d h = elim (Bool-cases c.is_banned) [
  | inl banned ↦ rw banned (same-Orderly paid r d)
  | inr allowed ↦ elim (Bool-cases (not c.email_verified)) [
    | inl unverified ↦ rw (allowed, unverified) (same-Orderly paid r d)
    | inr verified ↦ rw (allowed, verified) h
  ]
]

create_for-Orderly :
    (c : DomainCaller) (id : ℕ) (domain : String) (r : DomainRows)
    → Distinct r.alerts
    → Orderly (paid_creation (c, create id domain)) r (or_same r (create_for c id domain r))
create_for-Orderly c id domain r d =
    let paid = paid_creation (c, create id domain) in
    let full = below c.level Level.day_pass && leb 1 (length r.alerts) in
    let named = any_of (λ a. str_eq a.domain domain) r.alerts in
    elim (Bool-cases full) [
      | inl many ↦ rw many (same-Orderly paid r d)
      | inr few ↦ elim (Bool-cases named) [
        | inl old ↦ rw (few, old) (same-Orderly paid r d)
        | inr new ↦
            rw (few, new)
              record {
                distinct =
                    Distinct-snoc (new_alert c id domain) r.alerts d
                      (others_apart domain r.alerts new);
                limit = ground (arith, few, length-append r.alerts (new_alert c id domain ∷ []));
              }
      ]
    ]

update_found-Orderly :
    (c : DomainCaller) (b : Bool) (o : Option DomainAlert) (r : DomainRows)
    → Distinct r.alerts
    → Orderly 0 r (or_same r (update_found c b o r))
update_found-Orderly c b none r d = same-Orderly 0 r d
update_found-Orderly c b (some a) r d = record {
  distinct = Distinct-switch c a.id b r.alerts d;
  limit = ground (arith, length-switch c a.id b r.alerts);
}

delete_found-Orderly :
    (o : Option DomainAlert) (r : DomainRows)
    → Distinct r.alerts
    → Orderly 0 r (or_same r (delete_found o r))
delete_found-Orderly none r d = same-Orderly 0 r d
delete_found-Orderly (some a) r d = record {
  distinct = Distinct-filter (λ x. not (x.id == a.id)) r.alerts d;
  limit = ground (arith, length-filter_by-le (λ x. not (x.id == a.id)) r.alerts);
}

serve-Orderly :
    (q : DomainCaller × Request) (r : DomainRows)
    → Distinct r.alerts
    → Orderly (paid_creation q) r (serve q r)
unfolding create_domain_alert update_domain_alert delete_domain_alert
serve-Orderly (c, create id domain) r d =
    for_user-Orderly (paid_creation (c, create id domain)) c (create_for c id domain r) r d
      (create_for-Orderly c id domain r d)
serve-Orderly (c, switch id active) r d =
    for_user-Orderly 0 c (update_found c active (find_alert id r) r) r d
      (update_found-Orderly c active (find_alert id r) r d)
serve-Orderly (c, delete id) r d =
    for_user-Orderly 0 c (delete_found (find_alert id r) r) r d
      (delete_found-Orderly (find_alert id r) r d)

-- If no two alerts of a user are for one domain, that stays so over any sequence of requests to
-- create, pause, resume and delete alerts; and afterwards the alerts are at most as many as before
-- (one, if there was none) and the creations by callers with a day pass or more together.
pub serve_all-Orderly :
    (qs : List (DomainCaller × Request)) (r : DomainRows)
    → Distinct r.alerts
    → Orderly (paid_creations qs) r (serve_all qs r)
serve_all-Orderly [] r d = same-Orderly 0 r d
serve_all-Orderly (q ∷ qs) r d =
    let one = serve-Orderly q r d in
    let rest = serve_all-Orderly qs (serve q r) one.distinct in
    record { distinct = rest.distinct; limit = ground (arith, one.limit, rest.limit) }
