-- ===== src/Batch/Packing.antt =====
-- The loop of `run_batch` (backend/src/rendercart/jobs/batch.py): which entries it makes, and when.
use render_cart.Prelude.{
  ℕ, ◌+◌, ◌≤◌, ◌<◌, ◌≡◌, refl, sym, ap, subst, ◌∙◌, inl, inr, true, false, List, [], ◌∷◌, arith,
  Bool-cases, ◌==◌, ltb, sum_by,
}
use render_cart.Batch.{
  ItemOutput, ItemResult, item_output, other_value, run_raises, Entry, BatchResult, archive,
  batch_error, max_batch_result_bytes, add_entry, accept, run_items,
}

abbrev pub size_sum : List Entry → ℕ
size_sum = sum_by (λ e. e.size)

-- The entry of a group: the tool ran on the group alone and left a file in the directory of the
-- item that is not locked and not empty, and the entry is that file, under the label `index`.
pub record Packs {A : Type 0} (runner : List A → ItemResult) (index : ℕ) (g : List A) (e : Entry)
    : Type 0 where
  pub output : ItemOutput
  pub ran : runner g ≡ item_output output
  pub unlocked : output.has_locked ≡ false
  pub inside : output.inside_directory ≡ true
  pub filled : 0 < output.size
  pub written : e ≡ record { index = index; filename = output.filename; size = output.size }

archive-inj : (es fs : List Entry) → archive es ≡ archive fs → es ≡ fs
archive-inj es fs h = ground arith

add_entry-archive :
    (e : Entry) (r : BatchResult) (es : List Entry)
    → add_entry e r ≡ archive es
    → (fs : List Entry) × (r ≡ archive fs) × (es ≡ e ∷ fs)
add_entry-archive e (archive fs) es h = (fs, refl, sym (archive-inj (e ∷ fs) es h))
add_entry-archive e (batch_error m) es h = absurd (ground arith)

module _ {A : Type 0} where
  -- The entries are those of the groups, in their order, with labels that count up.
  abbrev pub PacksAll :
      (runner : List A → ItemResult) → (index : ℕ) → List (List A) → List Entry → Type 0
  PacksAll runner index [] [] = Unit
  PacksAll runner index [] (e ∷ es) = ⊥
  PacksAll runner index (g ∷ gs) [] = ⊥
  PacksAll runner index (g ∷ gs) (e ∷ es) =
      Packs runner index g e × PacksAll runner (index + 1) gs es

  -- An accepted result: the entry and what the later rounds make.
  record Accepted (runner : List A → ItemResult) (index total : ℕ) (g : List A)
      (rest : ℕ → BatchResult) (es : List Entry) : Type 0 where
    pub entry : Entry
    pub others : List Entry
    pub all : es ≡ entry ∷ others
    pub packs : Packs runner index g entry
    pub later : rest (total + entry.size) ≡ archive others
    pub fits : total + entry.size ≤ max_batch_result_bytes

  accept-Accepted :
      (runner : List A → ItemResult) (index total : ℕ) (g : List A) (r : ItemResult)
      (rest : ℕ → BatchResult) (es : List Entry)
      → runner g ≡ r
      → accept index total r rest ≡ archive es
      → Accepted runner index total g rest es
  accept-Accepted runner index total g (run_raises m) rest es ran made = absurd (ground arith)
  accept-Accepted runner index total g other_value rest es ran made = absurd (ground arith)
  accept-Accepted runner index total g (item_output o) rest es ran made =
      elim (Bool-cases o.has_locked) [
        | inl locked ↦ absurd (ground (arith, made, locked))
        | inr unlocked ↦ elim (Bool-cases o.inside_directory) [
          | inr outside ↦ absurd (ground (arith, made, unlocked, outside))
          | inl inside ↦ elim (Bool-cases (o.size == 0)) [
            | inl empty ↦ absurd (ground (arith, made, unlocked, inside, empty))
            | inr full ↦ elim (Bool-cases (ltb max_batch_result_bytes (total + o.size))) [
              | inl large ↦ absurd (ground (arith, made, unlocked, inside, full, large))
              | inr fits ↦
                  let e : Entry = record { index = index; filename = o.filename; size = o.size } in
                  let (fs, later, all) =
                    add_entry-archive e (rest (total + o.size)) es
                      (rw (unlocked, inside, full, fits) at made) in
                  record {
                    entry = e;
                    others = fs;
                    all = all;
                    packs = record {
                      output = o;
                      ran = ran;
                      unlocked = unlocked;
                      inside = inside;
                      filled = ground (arith, full);
                      written = refl;
                    };
                    later = later;
                    fits = ground (arith, fits);
                  }
            ]
          ]
        ]
      ]

  Packs-accept :
      (runner : List A → ItemResult) (index total : ℕ) (g : List A) (e : Entry)
      (rest : ℕ → BatchResult)
      → Packs runner index g e
      → total + e.size ≤ max_batch_result_bytes
      → accept index total (runner g) rest ≡ add_entry e (rest (total + e.size))
  Packs-accept runner index total g e rest p fits =
      let o = p.output in
      let size : e.size ≡ o.size = ap (λ x. x.size) p.written in
      let full : (o.size == 0) ≡ false = ground (arith, p.filled) in
      let small : ltb max_batch_result_bytes (total + o.size) ≡ false =
        ground (arith, fits, size) in
      rw (p.ran, p.unlocked, p.inside, full, small, p.written) refl

  pub run_items-PacksAll :
      (runner : List A → ItemResult) (index total : ℕ) (gs : List (List A)) (es : List Entry)
      → run_items runner index total gs ≡ archive es
      → total ≤ max_batch_result_bytes
      → PacksAll runner index gs es × (total + size_sum es ≤ max_batch_result_bytes)
  unfolding run_items
  run_items-PacksAll runner index total [] [] made h = (tt, omega (arith, h))
  run_items-PacksAll runner index total [] (e ∷ es) made h = absurd (ground (arith, made))
  run_items-PacksAll runner index total (g ∷ gs) [] made h =
      let a =
        accept-Accepted runner index total g (runner g) (λ t. run_items runner (index + 1) t gs) []
          refl made in
      let none_left = a.all in absurd (ground arith)
  run_items-PacksAll runner index total (g ∷ gs) (f ∷ fs) made h =
      let a =
        accept-Accepted runner index total g (runner g) (λ t. run_items runner (index + 1) t gs)
          (f ∷ fs) refl made in
      let first : f ≡ a.entry = ground (arith, a.all) in
      let others : fs ≡ a.others = ground (arith, a.all) in
      let size : f.size ≡ a.entry.size = ap (λ x. x.size) first in
      let rest =
        run_items-PacksAll runner (index + 1) (total + a.entry.size) gs fs
          (a.later ∙ ap (λ x. archive x) (sym others)) a.fits in
      ((subst (Packs runner index g) (sym first) a.packs, rest.0), omega (arith, rest.1, size))

  pub PacksAll-run_items :
      (runner : List A → ItemResult) (index total : ℕ) (gs : List (List A)) (es : List Entry)
      → PacksAll runner index gs es
      → total + size_sum es ≤ max_batch_result_bytes
      → run_items runner index total gs ≡ archive es
  unfolding run_items
  PacksAll-run_items runner index total [] [] p h = refl
  PacksAll-run_items runner index total [] (e ∷ es) p h = absurd p
  PacksAll-run_items runner index total (g ∷ gs) [] p h = absurd p
  PacksAll-run_items runner index total (g ∷ gs) (e ∷ es) p h =
      Packs-accept runner index total g e (λ t. run_items runner (index + 1) t gs) p.0
        (omega (arith, h))
      ∙ ap (add_entry e)
          (PacksAll-run_items runner (index + 1) (total + e.size) gs es p.1 (omega (arith, h)))
