-- ===== src/Quota.antt =====
-- backend/src/rendercart/jobs/quota.py and core/redis.py: the counters that hold daily, hourly and
-- monthly quotas. Redis is a parameter: a record of the commands that the Lua scripts call, with
-- their documented effect on the value of a key. A script runs alone, so it is one function.
pub mod Laws
pub mod Windows
pub mod Memory
mod Tests
use render_cart.Prelude.{
  ℕ, ◌≡◌, ◌≢◌, String, Bool, true, false, not, ◌||◌, Option, none, some, if◌then◌else◌, leb,
}
use render_cart.Prelude.Int.{ℤ, pos, negsuc, ◌+ℤ◌, ◌-ℤ◌, ltb_ℤ, leb_ℤ}

-- `tonumber(redis.call('GET', key) or '0')`
abbrev pub number : Option ℤ → ℤ
number none = pos 0
number (some n) = n

-- INCR and DECR are INCRBY with 1 and -1, and DECRBY n is INCRBY with -n.
pub record Redis : Type 1 where
  pub Store : Type 0
  pub get : String → Store → Option ℤ
  pub incrby : String → ℤ → Store → Store
  pub expire : String → ℕ → Store → Store
  pub del : String → Store → Store
  pub get-incrby_self :
      (k : String) (n : ℤ) (s : Store) → get k (incrby k n s) ≡ some (number (get k s) +ℤ n)
  pub get-incrby_ne : (k j : String) (n : ℤ) (s : Store) → k ≢ j → get j (incrby k n s) ≡ get j s
  pub get-expire : (k j : String) (ttl : ℕ) (s : Store) → get j (expire k ttl s) ≡ get j s
  pub get-del_self : (k : String) (s : Store) → get k (del k s) ≡ none
  pub get-del_ne : (k j : String) (s : Store) → k ≢ j → get j (del k s) ≡ get j s

abbrev pub eq_ℤ : ℤ → ℤ → Bool
eq_ℤ a b = if leb_ℤ a b then leb_ℤ b a else false

-- `bool(n)`
abbrev pub truthy : ℤ → Bool
truthy n = not (eq_ℤ n (pos 0))

module _ (redis : Redis) where
  open redis use {Store, get, incrby, expire, del}

  abbrev pub value : String → Store → ℤ
  value k s = number (get k s)

  -- `_RESERVE`: KEYS[1], ARGV[1] and ARGV[2].
  unfoldable pub reserve_script : String → (maximum ttl : ℕ) → Store → ℤ × Store
  reserve_script k maximum ttl s =
      let s' = incrby k (pos 1) s in
      if leb_ℤ (pos maximum) (value k s)
      then (pos 0, s)
      else (value k s', if eq_ℤ (value k s') (pos 1) then expire k ttl s' else s')

  unfoldable pub reserve_counter : String → (maximum ttl : ℕ) → Store → Bool × Store
  unfolding reserve_script
  reserve_counter k maximum ttl s =
      let (count, s') = reserve_script k maximum ttl s in (truthy count, s')

  unfoldable pub release_key : String → Store → Store
  release_key k s = incrby k (negsuc 0) s

  -- `_RESERVE_AMOUNT`
  unfoldable pub reserve_amount_script : String → (amount maximum ttl : ℕ) → Store → ℤ × Store
  reserve_amount_script k amount maximum ttl s =
      let s' = incrby k (pos amount) s in
      if ltb_ℤ (pos maximum) (value k s +ℤ pos amount)
      then (pos 0, s)
      else (value k s', if eq_ℤ (value k s') (pos amount) then expire k ttl s' else s')

  -- A negative amount or maximum is refused with the zero ones.
  unfoldable pub reserve_amount : String → (amount maximum ttl : ℕ) → Store → Bool × Store
  unfolding reserve_amount_script
  reserve_amount k amount maximum ttl s =
      let (current, s') = reserve_amount_script k amount maximum ttl s in
      if leb amount 0 || leb maximum 0 then (false, s) else (truthy current, s')

  unfoldable pub release_amount : String → (amount : ℕ) → Store → Store
  release_amount k amount s =
      if leb amount 0
      then s
      else if leb_ℤ (value k s) (pos amount)
      then del k s
      else incrby k (pos 0 -ℤ pos amount) s

  -- `_INCREMENT_WITH_TTL` and `increment_window` of core/redis.py.
  unfoldable pub increment_window : String → (ttl : ℕ) → Store → ℤ × Store
  increment_window k ttl s =
      let s' = incrby k (pos 1) s in
      (value k s', if eq_ℤ (value k s') (pos 1) then expire k ttl s' else s')
