-- ===== src/Registry/Catalog.antt =====
-- A registry that loads is sound.
use text.Mathlib.TextPositions.{eq_refl}
use mathlib.Core.List.{append_assoc, append-nil}
use render_cart.Prelude.{
  ◌≡◌, inl, inr, refl, sym, subst, ◌∙◌, String, false, none, some, List, [], ◌∷◌, ◌++◌, All,
  All-append, arith, Bool-cases, Option-cases,
}
use render_cart.Registry.{ToolManifest, Registry, loaded, leaks, lookup, build_from, build_registry}

lookup-append_found :
    (s : String) (t : ToolManifest) (xs ys : Registry)
    → lookup s xs ≡ some t
    → lookup s (xs ++ ys) ≡ some t
lookup-append_found s t [] ys e = cc
lookup-append_found s t (x ∷ xs) ys e = ground (arith, lookup-append_found s t xs ys)

lookup-append_missing :
    (s : String) (xs ys : Registry) → lookup s xs ≡ none → lookup s (xs ++ ys) ≡ lookup s ys
lookup-append_missing s [] ys e = refl
lookup-append_missing s (x ∷ xs) ys e = ground (arith, lookup-append_missing s xs ys)

-- Every tool is found by its own slug, so slugs are unique, and no tool leaks.
pub record SoundRegistry (r : Registry) : Type 0 where
  pub found : All (λ t. lookup t.slug r ≡ some t) r
  pub closed : All (λ t. leaks t ≡ false) r

found-append :
    (m : ToolManifest) (r ts : Registry)
    → All (λ t. lookup t.slug r ≡ some t) ts
    → All (λ t. lookup t.slug (r ++ m ∷ []) ≡ some t) ts
found-append m r [] h = tt
found-append m r (t ∷ ts) h = (lookup-append_found t.slug t r (m ∷ []) h.0, found-append m r ts h.1)

SoundRegistry-append :
    (m : ToolManifest) (r : Registry)
    → SoundRegistry r
    → lookup m.slug r ≡ none
    → leaks m ≡ false
    → SoundRegistry (r ++ m ∷ [])
SoundRegistry-append m r s e l = record {
  found =
      All-append (λ t. lookup t.slug (r ++ m ∷ []) ≡ some t) r (m ∷ []) (found-append m r r s.found)
        (lookup-append_missing m.slug r (m ∷ []) e ∙ rw (eq_refl m.slug), tt);
  closed = All-append (λ t. leaks t ≡ false) r (m ∷ []) s.closed (l, tt);
}

build_from-SoundRegistry :
    (ms r done : List ToolManifest)
    → SoundRegistry r
    → build_from r ms ≡ loaded done
    → SoundRegistry done × (done ≡ r ++ ms)
unfolding build_from
build_from-SoundRegistry [] r done s e =
    let same : r ≡ done = ground arith in
    (subst SoundRegistry same s, sym same ∙ sym (append-nil r))
build_from-SoundRegistry (m ∷ ms) r done s e = elim (Option-cases (lookup m.slug r)) [
  | inr (t, dup) ↦ ground arith
  | inl new ↦ elim (Bool-cases (leaks m)) [
    | inl leak ↦ ground arith
    | inr closed ↦
        let (sound, all) =
          build_from-SoundRegistry ms (r ++ m ∷ []) done (SoundRegistry-append m r s new closed)
            (ground arith) in
        (sound, all ∙ append_assoc r (m ∷ []) ms)
  ]
]

-- A registry that loads holds exactly the manifests in their order, each is found by its slug,
-- and no restricted one is open to anybody below a super admin.
pub build_registry-SoundRegistry :
    (ms : List ToolManifest) (r : Registry)
    → build_registry ms ≡ loaded r
    → SoundRegistry r × (r ≡ ms)
unfolding build_registry
build_registry-SoundRegistry ms r e =
    build_from-SoundRegistry ms [] r (record { found = tt; closed = tt }) e
