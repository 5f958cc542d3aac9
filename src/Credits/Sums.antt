-- ===== src/Credits/Sums.antt =====
-- Sums over the lots, and what a write of one row does to them.
use render_cart.Prelude.{
  ℕ, ◌+◌, ◌≤◌, ◌≡◌, ◌≢◌, refl, sym, Bool, some, List, [], ◌∷◌, arith, ◌==◌, if◌then◌else◌, sum_by,
  filter_by, All, is_some,
}
use render_cart.Credits.{Lot, Reservation, free, find_lot, update_lot, insert_lot, order_lots}

-- The credits that reservations hold on a lot, and those that a job holds.
abbrev pub reserved_on : ℕ → List Reservation → ℕ
reserved_on i = sum_by (λ r. if r.credit_lot_id == i then r.amount else 0)

abbrev pub amount_sum : List Reservation → ℕ
amount_sum = sum_by (λ r. r.amount)

pub sum_by-update_lot :
    (f : Lot → ℕ) (g : Lot → Lot) (i : ℕ) (l : Lot) (ls : List Lot)
    → find_lot i ls ≡ some l
    → sum_by f (update_lot i g ls) + f l ≡ sum_by f ls + f (g l)
sum_by-update_lot f g i l [] e = cc
sum_by-update_lot f g i l (x ∷ ls) e = ground (arith, sum_by-update_lot f g i l ls)

-- A write keeps the ids, so it finds the same rows.
pub find_lot-update_lot :
    (g : Lot → Lot) (i j : ℕ) (ls : List Lot)
    → ((l : Lot) → (g l).id ≡ l.id)
    → is_some (find_lot j (update_lot i g ls)) ≡ is_some (find_lot j ls)
find_lot-update_lot g i j [] same = refl
find_lot-update_lot g i j (x ∷ ls) same = ground (arith, same x, find_lot-update_lot g i j ls same)

pub find_lot-id : (i : ℕ) (l : Lot) (ls : List Lot) → find_lot i ls ≡ some l → l.id ≡ i
find_lot-id i l [] e = cc
find_lot-id i l (x ∷ ls) e = ground (arith, find_lot-id i l ls)

-- Every row has its own id.
abbrev pub Apart : Lot → List Lot → Type 0
Apart a = All (λ l. l.id ≢ a.id)

abbrev pub DistinctIds : List Lot → Type 0
DistinctIds [] = Unit
DistinctIds (l ∷ ls) = Apart l ls × DistinctIds ls

pub Apart-update_lot :
    (g : Lot → Lot) (i : ℕ) (a : Lot) (ls : List Lot)
    → ((l : Lot) → (g l).id ≡ l.id)
    → Apart a ls
    → Apart a (update_lot i g ls)
Apart-update_lot g i a [] same h = h
Apart-update_lot g i a (x ∷ ls) same h = ground (arith, same x, Apart-update_lot g i a ls same h.1)

pub Apart-same_id : (a b : Lot) (ls : List Lot) → a.id ≡ b.id → Apart a ls → Apart b ls
Apart-same_id a b [] e h = h
Apart-same_id a b (x ∷ ls) e h = (rw (← e) h.0, Apart-same_id a b ls e h.1)

pub DistinctIds-update_lot :
    (g : Lot → Lot) (i : ℕ) (ls : List Lot)
    → ((l : Lot) → (g l).id ≡ l.id)
    → DistinctIds ls
    → DistinctIds (update_lot i g ls)
DistinctIds-update_lot g i [] same h = h
DistinctIds-update_lot g i (x ∷ ls) same h = ground (
  arith,
  Apart-same_id x (g x) ls (sym (same x)) h.0,
  Apart-update_lot g i x ls same h.0,
  DistinctIds-update_lot g i ls same h.1,
)

-- What the lots of one id have free; ordering and filtering do not raise it.
abbrev pub free_on : ℕ → List Lot → ℕ
free_on i = sum_by (λ l. if l.id == i then free l else 0)

pub sum_by-insert_lot :
    (f : Lot → ℕ) (a : Lot) (ls : List Lot) → sum_by f (insert_lot a ls) ≡ f a + sum_by f ls
unfolding insert_lot
sum_by-insert_lot f a [] = refl
sum_by-insert_lot f a (b ∷ ls) = ground (arith, sum_by-insert_lot f a ls)

pub sum_by-order_lots : (f : Lot → ℕ) (ls : List Lot) → sum_by f (order_lots ls) ≡ sum_by f ls
unfolding order_lots
sum_by-order_lots f [] = refl
sum_by-order_lots f (l ∷ ls) =
    omega (arith, sum_by-insert_lot f l (order_lots ls), sum_by-order_lots f ls)

pub sum_by-filter_by-le {ℓ} :
    {A : Type ℓ} (f : A → ℕ) (p : A → Bool) (xs : List A) → sum_by f (filter_by p xs) ≤ sum_by f xs
sum_by-filter_by-le f p [] = omega arith
sum_by-filter_by-le f p (x ∷ xs) = ground (arith, sum_by-filter_by-le f p xs)

pub free_on-Apart : (a : Lot) (ls : List Lot) → Apart a ls → free_on a.id ls ≡ 0
free_on-Apart a [] h = refl
free_on-Apart a (x ∷ ls) h = ground (arith, free_on-Apart a ls h.1)
