-- ===== src/Credits/Books/Shares.antt =====
-- Shares that the lots have free can be held: what writing them does to the lots.
use render_cart.Prelude.{
  ℕ, ◌+◌, ◌≤◌, ◌≡◌, refl, ◌∙◌, inl, inr, true, List, [], ◌∷◌, ◌++◌, arith, ◌==◌, All, is_some,
  Option-cases, Bool-cases,
}
use render_cart.Credits.{Lot, Reservation, free, remaining_sum, held_sum, find_lot, update_lot}
use render_cart.Credits.Sums.{
  Apart, DistinctIds, sum_by-update_lot, find_lot-update_lot, DistinctIds-update_lot,
}
use render_cart.Credits.Reserve.{Share, add_held, hold_shares, reservation_rows}
use render_cart.Credits.Allocation.{share_sum, taken_on}
use render_cart.Credits.Books.{Covered, Known, reserved_on-append, Covered-same}

abbrev pub Fits : List Share → Lot → Type 0
Fits shares l = taken_on l.id shares ≤ free l

abbrev pub KnownShare : List Lot → Share → Type 0
KnownShare lots s = is_some (find_lot s.0 lots) ≡ true

-- Each lot has the shares on it free, and each share has its lot.
pub record Holdable (shares : List Share) (lots : List Lot) : Type 0 where
  pub fits : All (Fits shares) lots
  pub known : All (KnownShare lots) shares

add_held-id : (n : ℕ) (l : Lot) → (add_held n l).id ≡ l.id
add_held-id n l = refl

Fits-drop :
    (s : Share) (shares : List Share) (lots : List Lot)
    → All (Fits (s ∷ shares)) lots
    → All (Fits shares) lots
Fits-drop s shares [] h = h
Fits-drop s shares (l ∷ lots) h = (ground (arith, h.0), Fits-drop s shares lots h.1)

Fits-add_held :
    (s : Share) (shares : List Share) (lots : List Lot)
    → All (Fits (s ∷ shares)) lots
    → All (Fits shares) (update_lot s.0 (add_held s.1) lots)
Fits-add_held s shares [] h = h
Fits-add_held s shares (l ∷ lots) h =
    ground (arith, Fits-drop s shares lots h.1, Fits-add_held s shares lots h.1)

KnownShare-add_held :
    (n i : ℕ) (lots : List Lot) (shares : List Share)
    → All (KnownShare lots) shares
    → All (KnownShare (update_lot i (add_held n) lots)) shares
KnownShare-add_held n i lots [] h = h
KnownShare-add_held n i lots (s ∷ shares) h = (
  rw (find_lot-update_lot (add_held n) i s.0 lots (add_held-id n)) h.0,
  KnownShare-add_held n i lots shares h.1,
)

Known-add_held :
    (n i : ℕ) (lots : List Lot) (rs : List Reservation)
    → All (Known lots) rs
    → All (Known (update_lot i (add_held n) lots)) rs
Known-add_held n i lots [] h = h
Known-add_held n i lots (r ∷ rs) h = (
  rw (find_lot-update_lot (add_held n) i r.credit_lot_id lots (add_held-id n)) h.0,
  Known-add_held n i lots rs h.1,
)

abbrev row_of : ℕ → Share → Reservation
row_of job s = record { job_id = job; credit_lot_id = s.0; amount = s.1 }

-- Lots of another id are not concerned.
Covered-Apart :
    (job : ℕ) (s : Share) (a : Lot) (rs : List Reservation) (lots : List Lot)
    → a.id ≡ s.0
    → Apart a lots
    → All (Covered rs) lots
    → All (Covered (row_of job s ∷ rs)) lots
Covered-Apart job s a rs [] e d h = h
Covered-Apart job s a rs (l ∷ lots) e d h =
    (ground (arith, h.0, d.0), Covered-Apart job s a rs lots e d.1 h.1)

Covered-add_held :
    (job : ℕ) (s : Share) (shares : List Share) (rs : List Reservation) (lots : List Lot)
    → DistinctIds lots
    → All (Fits (s ∷ shares)) lots
    → All (Covered rs) lots
    → All (Covered (row_of job s ∷ rs)) (update_lot s.0 (add_held s.1) lots)
Covered-add_held job s shares rs [] d f h = h
Covered-add_held job s shares rs (l ∷ lots) d f h = elim (Bool-cases (l.id == s.0)) [
  | inl hit ↦ ground (arith, Covered-Apart job s l rs lots (ground arith) d.0 h.1)
  | inr miss ↦ ground (arith, Covered-add_held job s shares rs lots d.1 f.1 h.1)
]

-- What holding a list of shares for a job does to the lots.
pub record Held (job : ℕ) (shares : List Share) (rs : List Reservation) (lots after : List Lot)
    : Type 0 where
  pub held : held_sum after ≡ held_sum lots + share_sum shares
  pub remaining : remaining_sum after ≡ remaining_sum lots
  pub covered : All (Covered (reservation_rows job shares ++ rs)) after
  pub known : All (Known after) (reservation_rows job shares ++ rs)
  pub distinct : DistinctIds after

hold_step_sums :
    (s : Share) (lots : List Lot)
    → KnownShare lots s
    → let after = update_lot s.0 (add_held s.1) lots in
      (held_sum after ≡ held_sum lots + s.1) × (remaining_sum after ≡ remaining_sum lots)
hold_step_sums s lots k = elim (Option-cases (find_lot s.0 lots)) [
  | inl gone ↦ ground arith
  | inr (l, found) ↦ omega (
    arith,
    sum_by-update_lot (λ l. l.held) (add_held s.1) s.0 l lots found,
    sum_by-update_lot (λ l. l.remaining) (add_held s.1) s.0 l lots found,
  )
]

Covered-swap :
    (job : ℕ) (s : Share) (xs rs : List Reservation) (lots : List Lot)
    → All (Covered (xs ++ row_of job s ∷ rs)) lots
    → All (Covered (row_of job s ∷ (xs ++ rs))) lots
Covered-swap job s xs rs lots =
    Covered-same (xs ++ row_of job s ∷ rs) (row_of job s ∷ (xs ++ rs)) lots
      λ i. omega (arith, reserved_on-append i xs (row_of job s ∷ rs), reserved_on-append i xs rs)

Known-swap :
    (r : Reservation) (xs rs : List Reservation) (lots : List Lot)
    → All (Known lots) (xs ++ r ∷ rs)
    → All (Known lots) (r ∷ (xs ++ rs))
Known-swap r [] rs lots h = h
Known-swap r (x ∷ xs) rs lots h = let t = Known-swap r xs rs lots h.1 in (t.0, (h.0, t.1))

pub hold_shares-Held :
    (job : ℕ) (shares : List Share) (rs : List Reservation) (lots : List Lot)
    → Holdable shares lots
    → All (Covered rs) lots
    → All (Known lots) rs
    → DistinctIds lots
    → Held job shares rs lots (hold_shares shares lots)
hold_shares-Held job [] rs lots h c k d = record {
  held = omega arith;
  remaining = refl;
  covered = c;
  known = k;
  distinct = d;
}
hold_shares-Held job ((i, n) ∷ shares) rs lots h c k d =
    let s : Share = (i, n) in
    let next = update_lot i (add_held n) lots in
    let step = hold_step_sums s lots h.known.0 in
    let row_known : Known next (row_of job s) =
      rw (find_lot-update_lot (add_held n) i i lots (add_held-id n)) h.known.0 in
    let rest =
      hold_shares-Held job shares (row_of job s ∷ rs) next
        (record {
          fits = Fits-add_held s shares lots h.fits;
          known = KnownShare-add_held n i lots shares h.known.1;
        })
        (Covered-add_held job s shares rs lots d h.fits c) (row_known, Known-add_held n i lots rs k)
        (DistinctIds-update_lot (add_held n) i lots (add_held-id n) d) in
    record {
      held = omega (arith, rest.held, step.0);
      remaining = rest.remaining ∙ step.1;
      covered = Covered-swap job s (reservation_rows job shares) rs _ rest.covered;
      known = Known-swap (row_of job s) (reservation_rows job shares) rs _ rest.known;
      distinct = rest.distinct;
    }
