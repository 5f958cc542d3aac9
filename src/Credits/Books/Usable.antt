-- ===== src/Credits/Books/Usable.antt =====
-- What the loop allocates from the usable lots can be held: lots have distinct ids.
use render_cart.Prelude.{
  ℕ, zero, suc, ◌-◌, ◌≤◌, ◌<◌, ◌≡◌, refl, none, List, [], ◌∷◌, arith, ◌==◌, if◌then◌else◌, All,
  filter_by, Option-cases,
}
use render_cart.Credits.{Lot, free, free_sum, find_lot, usable, usable_lots}
use render_cart.Credits.Sums.{
  free_on, Apart, DistinctIds, free_on-Apart, sum_by-order_lots, sum_by-filter_by-le,
}
use render_cart.Credits.Reserve.{Share, allocate}
use render_cart.Credits.Allocation.{
  taken_on, allocate-cons, allocate-nil, allocate-zero, taken_on-allocate-le,
}
use render_cart.Credits.Books.Shares.{Fits, KnownShare, Holdable}

free_on-none : (i : ℕ) (lots : List Lot) → find_lot i lots ≡ none → free_on i lots ≡ 0
free_on-none i [] e = refl
free_on-none i (l ∷ lots) e = ground (arith, free_on-none i lots)

free_on-cons :
    (x : Lot) (ls ms : List Lot)
    → Apart x ms
    → All (λ l. free_on l.id ls ≤ free l) ms
    → All (λ l. free_on l.id (x ∷ ls) ≤ free l) ms
free_on-cons x ls [] d h = h
free_on-cons x ls (m ∷ ms) d h = (ground (arith, d.0, h.0), free_on-cons x ls ms d.1 h.1)

-- With distinct ids, the lots of an id are that lot alone.
free_on-own : (lots : List Lot) → DistinctIds lots → All (λ l. free_on l.id lots ≤ free l) lots
free_on-own [] d = tt
free_on-own (l ∷ lots) d =
    (ground (arith, free_on-Apart l lots d.0), free_on-cons l lots lots d.0 (free_on-own lots d.1))

free_on-usable_lots :
    (i now : ℕ) (lots : List Lot) → free_on i (usable_lots now lots) ≤ free_on i lots
unfolding usable_lots
free_on-usable_lots i now lots = omega (
  arith,
  sum_by-order_lots (λ l. if l.id == i then free l else 0) (filter_by (usable now) lots),
  sum_by-filter_by-le (λ l. if l.id == i then free l else 0) (usable now) lots,
)

pub free_sum-usable_lots :
    (now : ℕ) (lots : List Lot) → free_sum (usable_lots now lots) ≤ free_sum lots
unfolding usable_lots
free_sum-usable_lots now lots = omega (
  arith,
  sum_by-order_lots free (filter_by (usable now) lots),
  sum_by-filter_by-le free (usable now) lots,
)

allocate-positive : (cost : ℕ) (ls : List Lot) → All (λ (s : Share). 0 < s.1) (allocate cost ls).0
allocate-positive zero ls = rw (allocate-zero ls) tt
allocate-positive (suc n) [] = rw (allocate-nil (suc n)) tt
allocate-positive (suc n) (l ∷ ls) =
    rw (allocate-cons (suc n) l ls (omega arith))
      (ground (arith, allocate-positive (suc n) ls, allocate-positive (suc n - free l) ls))

known_shares :
    (lots : List Lot) (shares : List Share)
    → ((i : ℕ) → taken_on i shares ≤ free_on i lots)
    → All (λ (s : Share). 0 < s.1) shares
    → All (KnownShare lots) shares
known_shares lots [] h p = tt
known_shares lots (s ∷ shares) h p = (
  ground (arith, h s.0, p.0, free_on-none s.0 lots, Option-cases (find_lot s.0 lots)),
  known_shares lots shares (λ i. ground (arith, h i)) p.1,
)

fitting_shares :
    (lots ms : List Lot) (shares : List Share)
    → ((i : ℕ) → taken_on i shares ≤ free_on i lots)
    → All (λ l. free_on l.id lots ≤ free l) ms
    → All (Fits shares) ms
fitting_shares lots [] shares h d = tt
fitting_shares lots (m ∷ ms) shares h d =
    (omega (arith, h m.id, d.0), fitting_shares lots ms shares h d.1)

-- What the loop allocates can be held.
pub allocate-Holdable :
    (now cost : ℕ) (lots : List Lot)
    → DistinctIds lots
    → Holdable (allocate cost (usable_lots now lots)).0 lots
allocate-Holdable now cost lots d =
    let shares = (allocate cost (usable_lots now lots)).0 in
    let within : (i : ℕ) → taken_on i shares ≤ free_on i lots = λ i.
      omega (
        arith,
        taken_on-allocate-le i cost (usable_lots now lots),
        free_on-usable_lots i now lots,
      ) in
    record {
      fits = fitting_shares lots lots shares within (free_on-own lots d);
      known = known_shares lots shares within (allocate-positive cost (usable_lots now lots));
    }
