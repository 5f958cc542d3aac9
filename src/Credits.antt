-- ===== src/Credits.antt =====
-- The credit tables of backend/src/rendercart/jobs/models.py, for one user: the account, its lots,
-- the reservations that jobs hold on them, and the ledger. Every query of the program names the
-- user, a job of the user, or the reference of a payment of the user, so the rows of two users
-- never meet in one operation.
pub mod Reserve
pub mod Settle
pub mod Grant
pub mod Allocation
pub mod Single
pub mod Ledger
pub mod Sums
pub mod Books
pub mod Lifecycle
mod Tests
use render_cart.Prelude.{
  ℕ, ◌-◌, ◌+◌, String, Bool, true, false, ◌&&◌, Option, none, some, List, [], ◌∷◌, ltb, leb, ◌==◌,
  if◌then◌else◌, sum_by, filter_by,
}
use render_cart.Prelude.Int.{ℤ, pos, ◌-ℤ◌}

-- `CreditAccount`. The balance is signed, since it is debited without a test.
pub record Account : Type 0 where
  pub balance : ℤ
  pub held : ℕ

-- `CreditLot`
pub record Lot : Type 0 where
  pub id : ℕ
  pub source_ledger_id : ℕ
  pub total : ℕ
  pub remaining : ℕ
  pub held : ℕ
  pub expires_at : Option ℕ
  pub created_at : ℕ

-- `CreditReservation`; its primary key is the job with the lot.
pub record Reservation : Type 0 where
  pub job_id : ℕ
  pub credit_lot_id : ℕ
  pub amount : ℕ

-- `CreditLedger`
pub record Entry : Type 0 where
  pub id : ℕ
  pub job_id : Option ℕ
  pub amount : ℤ
  pub kind : String
  pub reference_id : Option String
  pub expires_at : Option ℕ

pub record Wallet : Type 0 where
  pub account : Option Account
  pub lots : List Lot
  pub reservations : List Reservation
  pub ledger : List Entry

pub data CreditError : Type 0 where
  sign_in not_enough_credits not_enough_unexpired_credits : CreditError
  credits_require_account insufficient_credits integrity_error : CreditError

pub data Result {ℓ} (A : Type ℓ) : Type ℓ where
  ok : A → Result A
  err : CreditError → Result A

abbrev pub balance_of : Option Account → ℤ
balance_of none = pos 0
balance_of (some a) = a.balance

abbrev pub held_of : Option Account → ℕ
held_of none = 0
held_of (some a) = a.held

-- What a lot has left for new holds: `lot.remaining - lot.held`.
abbrev pub free : Lot → ℕ
free l = l.remaining - l.held

abbrev pub remaining_sum : List Lot → ℕ
remaining_sum = sum_by (λ l. l.remaining)

abbrev pub held_sum : List Lot → ℕ
held_sum = sum_by (λ l. l.held)

abbrev pub free_sum : List Lot → ℕ
free_sum = sum_by free

-- `db.get(CreditLot, id)`, and the write of a changed row.
abbrev pub find_lot : ℕ → List Lot → Option Lot
find_lot i [] = none
find_lot i (l ∷ ls) = if l.id == i then some l else find_lot i ls

abbrev pub update_lot : ℕ → (Lot → Lot) → List Lot → List Lot
update_lot i f [] = []
update_lot i f (l ∷ ls) = if l.id == i then f l ∷ ls else l ∷ update_lot i f ls

-- `or_(expires_at.is_(None), expires_at > now)`
abbrev pub unexpired : Option ℕ → ℕ → Bool
unexpired none now = true
unexpired (some t) now = ltb now t

abbrev pub usable : ℕ → Lot → Bool
usable now l = ltb l.held l.remaining && unexpired l.expires_at now

-- `ORDER BY expires_at ASC NULLS LAST, created_at ASC`: may `a` stand before `b`?
abbrev pub expires_first : Option ℕ → Option ℕ → Bool → Bool
expires_first none none older = older
expires_first none (some t) older = false
expires_first (some s) none older = true
expires_first (some s) (some t) older = if ltb s t then true else if s == t then older else false

abbrev pub precedes : Lot → Lot → Bool
precedes a b = expires_first a.expires_at b.expires_at (leb a.created_at b.created_at)

unfoldable pub insert_lot : Lot → List Lot → List Lot
insert_lot a [] = a ∷ []
insert_lot a (b ∷ ls) = if precedes a b then a ∷ b ∷ ls else b ∷ insert_lot a ls

unfoldable pub order_lots : List Lot → List Lot
unfolding insert_lot
order_lots [] = []
order_lots (l ∷ ls) = insert_lot l (order_lots ls)

-- The query for the lots that a new hold may use.
unfoldable pub usable_lots : ℕ → List Lot → List Lot
usable_lots now lots = order_lots (filter_by (usable now) lots)
