-- ===== src/Credits/Books/Rows.antt =====
-- Rows under filters, orders and writes: every row is still found by its id.
use render_cart.Prelude.{
  ℕ, ◌≡◌, ◌≢◌, refl, sym, Bool, true, some, List, [], ◌∷◌, arith, All, filter_by,
}
use render_cart.Credits.{Lot, find_lot, update_lot, insert_lot, order_lots}
use render_cart.Credits.Sums.{Apart, DistinctIds}

-- The row of the lot is the one that its id finds.
abbrev pub Found : List Lot → Lot → Type 0
Found lots l = find_lot l.id lots ≡ some l

pub Found-cons :
    (x : Lot) (ls ms : List Lot) → Apart x ms → All (Found ls) ms → All (Found (x ∷ ls)) ms
Found-cons x ls [] d h = h
Found-cons x ls (m ∷ ms) d h = (ground (arith, d.0, h.0), Found-cons x ls ms d.1 h.1)

pub DistinctIds-Found : (lots : List Lot) → DistinctIds lots → All (Found lots) lots
DistinctIds-Found [] d = tt
DistinctIds-Found (l ∷ ls) d = (ground arith, Found-cons l ls ls d.0 (DistinctIds-Found ls d.1))

pub find_lot-update_ne :
    (g : Lot → Lot) (i j : ℕ) (ls : List Lot)
    → ((l : Lot) → (g l).id ≡ l.id)
    → j ≢ i
    → find_lot j (update_lot i g ls) ≡ find_lot j ls
find_lot-update_ne g i j [] same ne = refl
find_lot-update_ne g i j (x ∷ ls) same ne =
    ground (arith, same x, find_lot-update_ne g i j ls same ne)

pub All-filter_by :
    (P : Lot → Type 0) (p : Lot → Bool) (ls : List Lot) → All P ls → All P (filter_by p ls)
All-filter_by P p [] h = h
All-filter_by P p (l ∷ ls) h = ground (arith, All-filter_by P p ls h.1)

pub filter_by-passes : (p : Lot → Bool) (ls : List Lot) → All (λ l. p l ≡ true) (filter_by p ls)
filter_by-passes p [] = tt
filter_by-passes p (l ∷ ls) = ground (arith, filter_by-passes p ls)

pub All-insert_lot :
    (P : Lot → Type 0) (a : Lot) (ls : List Lot) → P a → All P ls → All P (insert_lot a ls)
unfolding insert_lot
All-insert_lot P a [] pa h = (pa, tt)
All-insert_lot P a (b ∷ ls) pa h = ground (arith, All-insert_lot P a ls pa h.1)

pub All-order_lots : (P : Lot → Type 0) (ls : List Lot) → All P ls → All P (order_lots ls)
unfolding order_lots
All-order_lots P [] h = h
All-order_lots P (l ∷ ls) h = All-insert_lot P l (order_lots ls) h.0 (All-order_lots P ls h.1)

pub DistinctIds-filter_by :
    (p : Lot → Bool) (ls : List Lot) → DistinctIds ls → DistinctIds (filter_by p ls)
DistinctIds-filter_by p [] d = d
DistinctIds-filter_by p (l ∷ ls) d =
    ground (arith, All-filter_by (λ x. x.id ≢ l.id) p ls d.0, DistinctIds-filter_by p ls d.1)

pub DistinctIds-insert_lot :
    (a : Lot) (ls : List Lot) → Apart a ls → DistinctIds ls → DistinctIds (insert_lot a ls)
unfolding insert_lot
DistinctIds-insert_lot a [] f d = (tt, tt)
DistinctIds-insert_lot a (b ∷ ls) f d = ground (
  arith,
  All-insert_lot (λ x. x.id ≢ b.id) a ls (λ e. f.0 (sym e)) d.0,
  DistinctIds-insert_lot a ls f.1 d.1,
)

pub DistinctIds-order_lots : (ls : List Lot) → DistinctIds ls → DistinctIds (order_lots ls)
unfolding order_lots
DistinctIds-order_lots [] d = d
DistinctIds-order_lots (l ∷ ls) d =
    DistinctIds-insert_lot l (order_lots ls) (All-order_lots (λ x. x.id ≢ l.id) ls d.0)
      (DistinctIds-order_lots ls d.1)
