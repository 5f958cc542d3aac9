-- ===== src/Creation/Slots.antt =====
-- `reserve_slot` and `release_slot` of Creation/Place: what taking a slot of a quota does to the
-- counters, and that giving it back undoes it.
use text.Mathlib.Text.{◌==◌ as str_eq}
use text.Mathlib.TextEquality.{eq_iff}
use text.Mathlib.TextPositions.{eq_refl}
use render_cart.Prelude.{
  ℕ, suc, ◌+◌, ◌≡◌, ◌≢◌, inl, inr, ap, String, Option, none, some, if◌then◌else◌, arith, Bool-cases,
}
use render_cart.Prelude.Int.{ℤ, pos, ◌+ℤ◌, pos-add}
use render_cart.Quota.{Redis, number, value, reserve_counter, release_key, increment_window}
use render_cart.Quota.Laws.{reserve_counter_lem, release_key_lem, quota_frame}
use render_cart.Registry.{Limit}
use render_cart.Creation.{Creation, JobRequest, Refusal}
use render_cart.Creation.Place.{
  Slot, no_slot, slot_of, no_slot_left, take_slot, monthly_slot, hourly_slot, daily_slot,
  limited_slot, reserve_slot, unpaid,
}

-- A counter after a slot of `key`.
abbrev pub counted : (key k : String) → ℤ → ℤ
counted key k n = if str_eq key k then n +ℤ pos 1 else n

module _ (redis : Redis) where
  -- What taking a slot may do to the counters.
  pub data Taken (s : redis.Store) : Slot × redis.Store → Type 0 where
    untouched : Taken s (no_slot, s)
    turned_away : (e : Refusal) → Taken s (no_slot_left e, s)
    taken :
        (key : String) (s' : redis.Store)
        → ((k : String) → value redis k s' ≡ counted key k (value redis k s))
        → Taken s (slot_of key, s')

  same_or_other :
      (key k : String) (n : ℤ) (s' s : redis.Store)
      → (value redis key s' ≡ n)
      → (key ≢ k → value redis k s' ≡ value redis k s)
      → value redis k s' ≡ (if str_eq key k then n else value redis k s)
  same_or_other key k n s' s h other = ground (arith, eq_iff key k)

  abbrev pub Counts : redis.Store → Type 0
  Counts s = (k : String) → (n : ℕ) × (value redis k s ≡ pos n)

  granted-counted :
      (key k : String) (n maximum ttl : ℕ) (s : redis.Store)
      → value redis key s ≡ pos n
      → value redis key (reserve_counter redis key maximum ttl s).1 ≡ pos (n + 1)
      → value redis k (reserve_counter redis key maximum ttl s).1 ≡ counted key k (value redis k s)
  granted-counted key k n maximum ttl s h g = ground (
    arith,
    pos-add n 1,
    eq_iff key k,
    same_or_other key k (pos (n + 1)) (reserve_counter redis key maximum ttl s).1 s g
        λ ne. ap number (quota_frame redis key k 0 maximum ttl s ne).0,
  )

  pub take_slot-Taken :
      (key : String) (maximum ttl : ℕ) (e : Refusal) (s : redis.Store)
      → Counts s
      → Taken s (take_slot redis key maximum ttl e s)
  take_slot-Taken key maximum ttl e s h =
      let (n, counts) = h key in
      elim (reserve_counter_lem redis key n maximum ttl s counts) [
        | inl (_, granted, g) ↦ rw granted (
            taken key (reserve_counter redis key maximum ttl s).1
              λ k. granted-counted key k n maximum ttl s counts g)
        | inr (_, away) ↦ rw away (turned_away e)
      ]

  -- A request that is counted in a window leaves counters that are not negative.
  pub increment_window-Counts :
      (key : String) (ttl : ℕ) (s : redis.Store)
      → Counts s
      → Counts (increment_window redis key ttl s).1
  unfolding increment_window
  increment_window-Counts key ttl s h k =
      let (m, own) = h key in
      let (n, counts) = h k in
      let s' = (increment_window redis key ttl s).1 in
      let here : value redis key s' ≡ pos (m + 1) = ground (
        arith,
        pos-add m 1,
        redis.get-incrby_self key (pos 1) s,
        redis.get-expire key key ttl (redis.incrby key (pos 1) s),
      ) in
      let at : value redis k s' ≡ (if str_eq key k then pos (m + 1) else value redis k s) =
        same_or_other key k (pos (m + 1)) s' s here
          λ ne. ap number (quota_frame redis key k 0 0 ttl s ne).4 in
      (if str_eq key k then m + 1 else n, ground arith)

  monthly_slot-Taken :
      (c : Creation) (o : Option ℕ) (s : redis.Store)
      → Counts s
      → Taken s (monthly_slot redis c o s)
  monthly_slot-Taken c none s h = untouched
  monthly_slot-Taken c (some n) s h =
      take_slot-Taken c.monthly_key n c.seconds_until_next_month (402, "Monthly free limit reached")
        s h

  hourly_slot-Taken :
      (c : Creation) (l : Limit) (o : Option ℕ) (s : redis.Store)
      → Counts s
      → Taken s (hourly_slot redis c l o s)
  hourly_slot-Taken c l none s h = monthly_slot-Taken c l.count_per_month s h
  hourly_slot-Taken c l (some n) s h =
      take_slot-Taken c.hourly_key n 7200 (429, "Hourly fair-use limit reached") s h

  daily_slot-Taken :
      (c : Creation) (l : Limit) (o : Option ℕ) (s : redis.Store)
      → Counts s
      → Taken s (daily_slot redis c l o s)
  daily_slot-Taken c l none s h = hourly_slot-Taken c l l.fair_use_per_hour s h
  daily_slot-Taken c l (some n) s h =
      take_slot-Taken c.daily_key n 172800 (402, "Daily free limit reached") s h

  limited_slot-Taken :
      (c : Creation) (o : Option Limit) (s : redis.Store)
      → Counts s
      → Taken s (limited_slot redis c o s)
  limited_slot-Taken c none s h = untouched
  limited_slot-Taken c (some l) s h = daily_slot-Taken c l l.count_per_day s h

  pub reserve_slot-Taken :
      (c : Creation) (q : JobRequest) (limit : Option Limit) (s : redis.Store)
      → Counts s
      → Taken s (reserve_slot redis c q limit s)
  unfolding reserve_slot
  reserve_slot-Taken c q limit s h = elim (Bool-cases (unpaid q)) [
    | inl free ↦ rw free (limited_slot-Taken c limit s h)
    | inr paid ↦ rw paid untouched
  ]

  pub release-counted :
      (key k : String) (s s' : redis.Store)
      → Counts s
      → ((j : String) → value redis j s' ≡ counted key j (value redis j s))
      → value redis k (release_key redis key s') ≡ value redis k s
  release-counted key k s s' h g =
      let (n, counts) = h key in
      let stands : value redis key s' ≡ pos (suc n) =
        ground (arith, g key, pos-add n 1, eq_refl key) in
      ground (
        arith,
        g k,
        eq_iff key k,
        same_or_other key k (pos n) (release_key redis key s') s'
            (release_key_lem redis key n s' stands)
            λ ne. ap number (quota_frame redis key k 0 0 0 s' ne).1,
      )
