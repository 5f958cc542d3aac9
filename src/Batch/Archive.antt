-- ===== src/Batch/Archive.antt =====
-- `run_batch` of backend/src/rendercart/jobs/batch.py: which archive it makes, and when.
use text.Mathlib.Text.{◌==◌ as str_eq}
use render_cart.Prelude.{
  ◌↔◌, ℕ, ◌*◌, ◌%◌, ◌≤◌, ◌≡◌, refl, ap, subst, inl, inr, true, false, ◌||◌, some, List, [], ◌∷◌,
  ◌++◌, arith, Bool-cases, Option-cases, ◌==◌, ltb, if◌then◌else◌, length, length-append, All,
}
use render_cart.Registry.{ToolManifest}
use render_cart.Batch.{ItemResult, Entry, archive, pairs, alone, groups, run_items, run_batch}
use render_cart.Batch.Packing.{size_sum, PacksAll, run_items-PacksAll, PacksAll-run_items}

-- How many files one run of the tool takes.
abbrev pub group_size : ToolManifest → ℕ
group_size t = if str_eq t.slug "merge-pdf" then 2 else 1

module _ {A : Type 0} where
  abbrev pub flat : List (List A) → List A
  flat [] = []
  flat (g ∷ gs) = g ++ flat gs

  abbrev pub Sized : ℕ → List (List A) → Type 0
  Sized n = All (λ g. length g ≡ n)

  flat-pairs : (xs : List A) → flat (pairs xs) ≡ xs
  flat-pairs [] = refl
  flat-pairs (x ∷ []) = refl
  flat-pairs (x ∷ y ∷ xs) = ap (λ zs. x ∷ y ∷ zs) (flat-pairs xs)

  flat-alone : (xs : List A) → flat (alone xs) ≡ xs
  flat-alone [] = refl
  flat-alone (x ∷ xs) = ap (λ zs. x ∷ zs) (flat-alone xs)

  pairs-Sized : (xs : List A) → length xs % 2 ≡ 0 → Sized 2 (pairs xs)
  pairs-Sized [] even = tt
  pairs-Sized (x ∷ []) even = absurd (omega (arith, even))
  pairs-Sized (x ∷ y ∷ xs) even = (omega arith, pairs-Sized xs (omega (arith, even)))

  alone-Sized : (xs : List A) → Sized 1 (alone xs)
  alone-Sized [] = tt
  alone-Sized (x ∷ xs) = (omega arith, alone-Sized xs)

  -- The groups of one size are determined by their inputs.
  pairs-flat : (gs : List (List A)) → Sized 2 gs → pairs (flat gs) ≡ gs
  pairs-flat [] h = refl
  pairs-flat ([] ∷ gs) h = absurd (omega (arith, h.0))
  pairs-flat ((x ∷ []) ∷ gs) h = absurd (omega (arith, h.0))
  pairs-flat ((x ∷ y ∷ []) ∷ gs) h = ap (λ hs. (x ∷ y ∷ []) ∷ hs) (pairs-flat gs h.1)
  pairs-flat ((x ∷ y ∷ z ∷ g) ∷ gs) h = absurd (omega (arith, h.0))

  alone-flat : (gs : List (List A)) → Sized 1 gs → alone (flat gs) ≡ gs
  alone-flat [] h = refl
  alone-flat ([] ∷ gs) h = absurd (omega (arith, h.0))
  alone-flat ((x ∷ []) ∷ gs) h = ap (λ hs. (x ∷ []) ∷ hs) (alone-flat gs h.1)
  alone-flat ((x ∷ y ∷ g) ∷ gs) h = absurd (omega (arith, h.0))

  length-flat : (gs : List (List A)) → Sized 2 gs → length (flat gs) ≡ 2 * length gs
  length-flat [] h = omega arith
  length-flat (g ∷ gs) h = omega (arith, length-append g (flat gs), length-flat gs h.1, h.0)

  -- `_groups` cuts the inputs into groups of the size that the tool takes.
  groups-parts :
      (t : ToolManifest) (inputs : List A) (gs : List (List A))
      → groups t inputs ≡ some gs
      → (flat gs ≡ inputs) × Sized (group_size t) gs
  unfolding groups
  groups-parts t inputs gs e = elim (Bool-cases (str_eq t.slug "merge-pdf")) [
    | inl merges ↦ elim (Bool-cases (length inputs % 2 == 0)) [
      | inl even ↦
          let same : pairs inputs ≡ gs = ground (arith, e, merges, even) in
          rw merges (
            subst (λ hs. (flat hs ≡ inputs) × Sized 2 hs) same
              (flat-pairs inputs, pairs-Sized inputs (ground (arith, even))))
      | inr odd ↦ absurd (ground (arith, e, merges, odd))
    ]
    | inr single ↦
        let same : alone inputs ≡ gs = ground (arith, e, single) in
        rw single (
          subst (λ hs. (flat hs ≡ inputs) × Sized 1 hs) same
            (flat-alone inputs, alone-Sized inputs))
  ]

  parts-groups :
      (t : ToolManifest) (gs : List (List A))
      → Sized (group_size t) gs
      → groups t (flat gs) ≡ some gs
  unfolding groups
  parts-groups t gs h = elim (Bool-cases (str_eq t.slug "merge-pdf")) [
    | inl merges ↦
        let two : Sized 2 gs = rw merges at h in
        let even : (length (flat gs) % 2 == 0) ≡ true = ground (arith, length-flat gs two) in
        rw (merges, even, pairs-flat gs two) refl
    | inr single ↦ let one : Sized 1 gs = rw single at h in rw (single, alone-flat gs one) refl
  ]

  -- What an archive of `run_batch` is: the tool can run in batches on so many files, the inputs are
  -- cut in their order into groups of the size that the tool takes, and the entries are the files
  -- that the tool made of the groups.
  pub record Archived (t : ToolManifest) (runner : List A → ItemResult) (inputs : List A)
      (es : List Entry) : Type 0 where
    pub batchable : t.batchable ≡ true
    pub has_runner : t.has_runner ≡ true
    pub at_least : 2 ≤ length inputs
    pub at_most : length inputs ≤ t.batch_max_files
    pub parts : List (List A)
    pub cut : flat parts ≡ inputs
    pub sized : Sized (group_size t) parts
    pub packs : PacksAll runner 1 parts es
    pub fits : size_sum es ≤ 500000000

  run_batch-Archived :
      (t : ToolManifest) (runner : List A → ItemResult) (inputs : List A) (es : List Entry)
      → run_batch t runner inputs ≡ archive es
      → Archived t runner inputs es
  unfolding run_batch
  run_batch-Archived t runner inputs es e = elim (Option-cases (groups t inputs)) [
    | inl odd ↦ absurd (ground (arith, e, odd))
    | inr (gs, found) ↦
        let made : run_items runner 1 0 gs ≡ archive es = ground (arith, e, found) in
        let p = run_items-PacksAll runner 1 0 gs es made (omega arith) in
        let parts = groups-parts t inputs gs found in
        record {
          batchable = ground (arith, e);
          has_runner = ground (arith, e);
          at_least = ground (arith, e);
          at_most = ground (arith, e);
          parts = gs;
          cut = parts.0;
          sized = parts.1;
          packs = p.0;
          fits = omega (arith, p.1);
        }
  ]

  Archived-run_batch :
      (t : ToolManifest) (runner : List A → ItemResult) (inputs : List A) (es : List Entry)
      → Archived t runner inputs es
      → run_batch t runner inputs ≡ archive es
  unfolding run_batch
  Archived-run_batch t runner inputs es a =
      let found : groups t inputs ≡ some a.parts =
        subst (λ xs. groups t xs ≡ some a.parts) a.cut (parts-groups t a.parts a.sized) in
      let made : run_items runner 1 0 a.parts ≡ archive es =
        PacksAll-run_items runner 1 0 a.parts es a.packs (omega (arith, a.fits)) in
      let count : (ltb (length inputs) 2 || ltb t.batch_max_files (length inputs)) ≡ false =
        ground (arith, a.at_least, a.at_most) in
      rw (a.batchable, a.has_runner, count, found) made

  -- `run_batch` gives an archive exactly when the tool can run in batches, the number of files is in
  -- its range, they can be cut, in their order, into groups of the size that the tool takes (two
  -- files for the tool that merges, else one), and the tool makes of each group a file in the
  -- directory of its item, not locked and not empty, of at most 500 megabytes together. The entries
  -- are then these files in the order of the groups, labelled 1, 2, 3 and so on.
  pub run_batch-archive :
      (t : ToolManifest) (runner : List A → ItemResult) (inputs : List A) (es : List Entry)
      → run_batch t runner inputs ≡ archive es ↔ Archived t runner inputs es
  run_batch-archive t runner inputs es =
      (run_batch-Archived t runner inputs es, Archived-run_batch t runner inputs es)
