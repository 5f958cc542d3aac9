-- ===== src/Credits/Allocation.antt =====
-- The two loops that spread a cost over the lots: they agree, and they hold the whole cost exactly
-- when the lots have it free.
use render_cart.Prelude.{
  ℕ, zero, suc, ◌-◌, ◌+◌, ◌≤◌, ◌<◌, ◌≡◌, refl, List, [], ◌∷◌, ◌++◌, min, arith, ◌==◌, if◌then◌else◌,
  sum_by,
}
use render_cart.Credits.{Lot, free, free_sum}
use render_cart.Credits.Sums.{free_on}
use render_cart.Credits.Reserve.{Share, hold_loop, allocate, cons_share}

abbrev pub share_sum : List Share → ℕ
share_sum = sum_by (λ s. s.1)

abbrev pub taken_on : ℕ → List Share → ℕ
taken_on i = sum_by (λ s. if s.0 == i then s.1 else 0)

pub allocate-nil : (cost : ℕ) → allocate cost [] ≡ ([], cost)
unfolding allocate
allocate-nil cost = refl

hold_loop-nil : (cost : ℕ) → hold_loop cost [] ≡ ([], cost)
unfolding hold_loop
hold_loop-nil cost = refl

pub allocate-zero : (ls : List Lot) → allocate 0 ls ≡ ([], 0)
unfolding allocate
allocate-zero [] = refl
allocate-zero (l ∷ ls) = ground arith

hold_loop-zero : (ls : List Lot) → hold_loop 0 ls ≡ ([], 0)
unfolding hold_loop
hold_loop-zero [] = refl
hold_loop-zero (l ∷ ls) = ground (arith, hold_loop-zero ls)

-- One round of `allocate`, on a cost that is not zero: what is left after the lot goes on.
pub allocate-cons :
    (cost : ℕ) (l : Lot) (ls : List Lot)
    → 0 < cost
    → allocate cost (l ∷ ls) ≡ (
        if free l == 0
        then allocate cost ls
        else cons_share (l.id, min cost (free l)) (allocate (cost - free l) ls))
unfolding allocate
allocate-cons cost l ls h = ground (arith, allocate-zero ls)

hold_loop-cons :
    (cost : ℕ) (l : Lot) (ls : List Lot)
    → 0 < cost
    → hold_loop cost (l ∷ ls) ≡ (
        if free l == 0
        then hold_loop cost ls
        else cons_share (l.id, min cost (free l)) (hold_loop (cost - free l) ls))
unfolding hold_loop
hold_loop-cons cost l ls h = ground (arith, hold_loop-zero ls)

-- The loop of `create_job` and that of `_reserve_dynamic_credits` take the same shares.
pub hold_loop-eq-allocate : (cost : ℕ) (ls : List Lot) → hold_loop cost ls ≡ allocate cost ls
hold_loop-eq-allocate zero ls = rw (hold_loop-zero ls, allocate-zero ls)
hold_loop-eq-allocate (suc n) [] = rw (hold_loop-nil (suc n), allocate-nil (suc n))
hold_loop-eq-allocate (suc n) (l ∷ ls) = rw (
  hold_loop-cons (suc n) l ls (omega arith),
  allocate-cons (suc n) l ls (omega arith),
  hold_loop-eq-allocate (suc n) ls,
  hold_loop-eq-allocate (suc n - free l) ls,
)

-- The shares and what is left make up the cost, and what is left is what the lots lack.
pub allocate_sums :
    (cost : ℕ) (ls : List Lot)
    → let (shares, left) = allocate cost ls in
      (share_sum shares + left ≡ cost) × (left ≡ cost - free_sum ls)
allocate_sums zero ls = rw (allocate-zero ls) (omega arith)
allocate_sums (suc n) [] = rw (allocate-nil (suc n)) (omega arith)
allocate_sums (suc n) (l ∷ ls) =
    rw (allocate-cons (suc n) l ls (omega arith))
      (ground (arith, allocate_sums (suc n) ls, allocate_sums (suc n - free l) ls))

-- From the lots of one id no more is taken than they have free.
pub taken_on-allocate-le :
    (i cost : ℕ) (ls : List Lot) → taken_on i (allocate cost ls).0 ≤ free_on i ls
taken_on-allocate-le i zero ls = rw (allocate-zero ls) (omega arith)
taken_on-allocate-le i (suc n) [] = rw (allocate-nil (suc n)) (omega arith)
taken_on-allocate-le i (suc n) (l ∷ ls) =
    rw (allocate-cons (suc n) l ls (omega arith)) (
      ground (arith, taken_on-allocate-le i (suc n) ls, taken_on-allocate-le i (suc n - free l) ls))

abbrev pub after_shares : List Share → List Share × ℕ → List Share × ℕ
after_shares before (shares, left) = (before ++ shares, left)
