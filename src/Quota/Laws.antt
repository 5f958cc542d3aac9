-- ===== src/Quota/Laws.antt =====
-- One call of each quota function: when it grants, and what it does to the counter.
use render_cart.Prelude.{ℕ, suc, ◌+◌, ◌-◌, ◌≤◌, ◌<◌, ◌≡◌, ◌≢◌, ◌⊎◌, String, true, false, arith}
use render_cart.Prelude.Int.{ℤ, pos, negsuc, ◌+ℤ◌, ◌-ℤ◌, pos-add}
use render_cart.Quota.{
  Redis, value, reserve_counter, release_key, reserve_amount, release_amount, increment_window,
}

module _ (redis : Redis) where
  open redis use {
    Store, get, incrby, expire, del, get-incrby_self, get-incrby_ne, get-expire, get-del_self,
    get-del_ne,
  }

  value-incrby :
      (k : String) (n : ℤ) (s : Store) → value redis k (incrby k n s) ≡ value redis k s +ℤ n
  value-incrby k n s = rw get-incrby_self

  -- A counter that stands at a count of reservations is granted one more exactly while it is
  -- below the maximum, and then counts it; a refusal leaves the store alone.
  pub reserve_counter_lem :
      (k : String) (n maximum ttl : ℕ) (s : Store)
      → value redis k s ≡ pos n
      → ((n < maximum)
          × ((reserve_counter redis k maximum ttl s).0 ≡ true)
          × (value redis k (reserve_counter redis k maximum ttl s).1 ≡ pos (n + 1)))
        ⊎ ((maximum ≤ n) × (reserve_counter redis k maximum ttl s ≡ (false, s)))
  unfolding reserve_counter
  reserve_counter_lem k n maximum ttl s h =
      ground (arith, value-incrby k (pos 1) s, pos-add n 1, get-expire k k ttl (incrby k (pos 1) s))

  -- An amount is granted exactly when it is positive and fits under the maximum with what is
  -- reserved already; then it is added, and a refusal leaves the store alone.
  pub reserve_amount_lem :
      (k : String) (n amount maximum ttl : ℕ) (s : Store)
      → value redis k s ≡ pos n
      → ((0 < amount)
          × (n + amount ≤ maximum)
          × ((reserve_amount redis k amount maximum ttl s).0 ≡ true)
          × (value redis k (reserve_amount redis k amount maximum ttl s).1 ≡ pos (n + amount)))
        ⊎ (((amount ≡ 0) ⊎ (maximum < n + amount))
            × (reserve_amount redis k amount maximum ttl s ≡ (false, s)))
  unfolding reserve_amount
  reserve_amount_lem k n amount maximum ttl s h = ground (
    arith,
    value-incrby k (pos amount) s,
    pos-add n amount,
    get-expire k k ttl (incrby k (pos amount) s),
  )

  -- Giving an amount back lowers the counter by it, and removes the key at zero.
  pub release_amount_lem :
      (k : String) (n amount : ℕ) (s : Store)
      → value redis k s ≡ pos n
      → value redis k (release_amount redis k amount s) ≡ pos (n - amount)
  unfolding release_amount ◌-ℤ◌ ◌+ℤ◌
  release_amount_lem k n amount s h =
      ground (arith, value-incrby k (pos 0 -ℤ pos amount) s, get-del_self k s)

  pub release_key_lem :
      (k : String) (n : ℕ) (s : Store)
      → value redis k s ≡ pos (suc n)
      → value redis k (release_key redis k s) ≡ pos n
  unfolding release_key ◌+ℤ◌
  release_key_lem k n s h = ground (arith, value-incrby k (negsuc 0) s)

  -- No call touches the counter of another key.
  pub quota_frame :
      (k j : String) (amount maximum ttl : ℕ) (s : Store)
      → k ≢ j
      → (get j (reserve_counter redis k maximum ttl s).1 ≡ get j s)
        × (get j (release_key redis k s) ≡ get j s)
        × (get j (reserve_amount redis k amount maximum ttl s).1 ≡ get j s)
        × (get j (release_amount redis k amount s) ≡ get j s)
        × (get j (increment_window redis k ttl s).1 ≡ get j s)
  unfolding reserve_counter release_key reserve_amount release_amount increment_window
  quota_frame k j amount maximum ttl s ne = (
    ground (arith, get-expire k j ttl (incrby k (pos 1) s), get-incrby_ne k j (pos 1) s ne),
    get-incrby_ne k j (negsuc 0) s ne,
    ground
        (arith, get-expire k j ttl (incrby k (pos amount) s), get-incrby_ne k j (pos amount) s ne),
    ground (arith, get-del_ne k j s ne, get-incrby_ne k j (pos 0 -ℤ pos amount) s ne),
    ground (arith, get-expire k j ttl (incrby k (pos 1) s), get-incrby_ne k j (pos 1) s ne),
  )
