-- ===== src/Credits/Books.antt =====
-- The books of a wallet: the account agrees with the lots, and every hold of a job is backed by
-- the lot that it names.
pub mod Settling
pub mod Shares
pub mod Usable
pub mod Holding
pub mod Outcome
pub mod Dynamic
pub mod Granting
pub mod Rows
pub mod Expiry
pub mod Refund
use render_cart.Prelude.{
  ℕ, ◌+◌, ◌≤◌, ◌≡◌, refl, subst, ◌⊎◌, inl, inr, Bool-cases, Bool, true, false, Option, none, some,
  List, [], ◌∷◌, ◌++◌, arith, ◌==◌, if◌then◌else◌, sum_by, All, is_some, filter_by, not,
}
use render_cart.Prelude.Int.{ℤ, pos}
use render_cart.Credits.{
  Account, Lot, Reservation, Wallet, balance_of, held_of, remaining_sum, held_sum, find_lot,
}
use render_cart.Credits.Sums.{reserved_on, DistinctIds}

-- The reservations on a lot are part of what it holds, and that is part of what is left of it.
-- (The rest of `held` belongs to SMS alerts, which hold a lot without a reservation row.)
abbrev pub Covered : List Reservation → Lot → Type 0
Covered rs l = (reserved_on l.id rs ≤ l.held) × (l.held ≤ l.remaining)

abbrev pub Known : List Lot → Reservation → Type 0
Known lots r = is_some (find_lot r.credit_lot_id lots) ≡ true

pub record Books (w : Wallet) : Type 0 where
  pub balanced : balance_of w.account ≡ pos (remaining_sum w.lots)
  pub held : held_of w.account ≡ held_sum w.lots
  pub covered : All (Covered w.reservations) w.lots
  pub known : All (Known w.lots) w.reservations
  pub distinct : DistinctIds w.lots

pub All-find_lot :
    (P : Lot → Type 0) (i : ℕ) (l : Lot) (lots : List Lot)
    → All P lots
    → find_lot i lots ≡ some l
    → P l
All-find_lot P i l [] h e = cc
All-find_lot P i l (x ∷ ls) h e = elim (Bool-cases (x.id == i)) [
  | inl hit ↦ let same : x ≡ l = ground arith in subst P same h.0
  | inr miss ↦ All-find_lot P i l ls h.1 (ground arith)
]

pub held_sum-le-remaining_sum :
    (rs : List Reservation) (lots : List Lot)
    → All (Covered rs) lots
    → held_sum lots ≤ remaining_sum lots
held_sum-le-remaining_sum rs [] h = omega arith
held_sum-le-remaining_sum rs (l ∷ lots) h = omega (arith, held_sum-le-remaining_sum rs lots h.1)

pub reserved_on-append :
    (i : ℕ) (xs ys : List Reservation)
    → reserved_on i (xs ++ ys) ≡ reserved_on i xs + reserved_on i ys
reserved_on-append i [] ys = omega arith
reserved_on-append i (x ∷ xs) ys = omega (arith, reserved_on-append i xs ys)

-- The holds on a lot split into those of a job and the others.
pub reserved_on-split :
    (i : ℕ) (p : Reservation → Bool) (rs : List Reservation)
    → reserved_on i (filter_by p rs ++ filter_by (λ r. not (p r)) rs) ≡ reserved_on i rs
reserved_on-split i p [] = refl
reserved_on-split i p (r ∷ rs) = ground (
  arith,
  reserved_on-split i p rs,
  reserved_on-append i (filter_by p rs) (filter_by (λ r. not (p r)) rs),
  reserved_on-append i (filter_by p rs) (r ∷ filter_by (λ r. not (p r)) rs),
)

pub Covered-same :
    (xs ys : List Reservation) (lots : List Lot)
    → ((i : ℕ) → reserved_on i xs ≡ reserved_on i ys)
    → All (Covered xs) lots
    → All (Covered ys) lots
Covered-same xs ys [] e h = h
Covered-same xs ys (l ∷ lots) e h =
    ((omega (arith, e l.id), omega arith), Covered-same xs ys lots e h.1)
