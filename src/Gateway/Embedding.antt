-- ===== src/Gateway/Embedding.antt =====
-- `AIGateway.embed` of backend/src/rendercart/ai/gateway.py. A float is a value of a type `F` with
-- the test `math.isfinite`; what the provider sends is a parameter, and so are the numbers that the
-- mock mode makes of a SHA-256 digest.
use render_cart.Prelude.{
  ℕ, zero, suc, ◌+◌, ◌≤◌, ◌≡◌, inl, inr, Bool, true, not, ◌&&◌, ◌||◌, Option, none, some, List, [],
  ◌∷◌, ◌++◌, map, arith, if◌then◌else◌, ◌==◌, ltb, length, All, length-append, Bool-cases,
}

pub data EmbedError : Type 0 where
  texts_required provider_unavailable invalid_dimensions : EmbedError

pub data Embedded (F : Type 0) : Type 0 where
  vectors : List (List F) → Embedded F
  raises : EmbedError → Embedded F

-- `vector[:n]`
abbrev pub take {ℓ} : {A : Type ℓ} → ℕ → List A → List A
take zero xs = []
take (suc n) [] = []
take (suc n) (x ∷ xs) = x ∷ take n xs

module _ (F : Type 0) (is_finite : F → Bool) where
  abbrev pub all_finite : List F → Bool
  all_finite [] = true
  all_finite (x ∷ xs) = is_finite x && all_finite xs

  abbrev pub cons_vector : List F → Embedded F → Embedded F
  cons_vector v (vectors vs) = vectors (v ∷ vs)
  cons_vector v (raises e) = raises e

  -- The loop over the items of the answer; none is an item without a list of numbers.
  unfoldable pub read_items : (dimension : ℕ) → List (Option (List F)) → Embedded F
  read_items dimension [] = vectors []
  read_items dimension (none ∷ items) = raises provider_unavailable
  read_items dimension (some v ∷ items) =
      let rest = cons_vector v (read_items dimension items) in
      if not (length v == dimension) || not (all_finite v) then raises invalid_dimensions else rest

  -- The answer of the provider; none is an answer without a list.
  abbrev pub read_answer : (dimension texts : ℕ) → Option (List (Option (List F))) → Embedded F
  read_answer dimension texts none = raises provider_unavailable
  read_answer dimension texts (some items) =
      if length items == texts then read_items dimension items else raises provider_unavailable

module _ {F : Type 0} (digest : (seed counter : ℕ) → List F) where
  -- `while len(vector) < dimension`, with fuel for the rounds.
  unfoldable pub extend : (fuel dimension seed counter : ℕ) → List F → List F
  extend zero dimension seed counter v = v
  extend (suc fuel) dimension seed counter v =
      let rest = extend fuel dimension seed (counter + 1) (v ++ digest seed counter) in
      if ltb (length v) dimension then rest else v

  -- The vector of a text in the mock mode: each round adds a number at least.
  unfoldable pub mock_vector : (dimension seed : ℕ) → List F
  unfolding extend
  mock_vector dimension seed = take dimension (extend dimension dimension seed 0 [])

-- `embed`; each text is given by its seed, which is its bytes.
unfoldable pub embed :
    (F : Type 0) (is_finite : F → Bool) (digest : (seed counter : ℕ) → List F)
    → (mock : Bool) → (dimension : ℕ) → (seeds : List ℕ) → Option (List (Option (List F)))
    → Embedded F
unfolding mock_vector read_items
embed F is_finite digest mock dimension seeds answer =
    if length seeds == 0
    then raises texts_required
    else if mock
    then vectors (map (mock_vector digest dimension) seeds)
    else read_answer F is_finite dimension (length seeds) answer

-- As many vectors as texts, each of the configured dimension.
pub data Shaped {F : Type 0} (dimension texts : ℕ) : Embedded F → Type 0 where
  shape :
      (vs : List (List F))
      → length vs ≡ texts
      → All (λ v. length v ≡ dimension) vs
      → Shaped dimension texts (vectors vs)
  refusal : (e : EmbedError) → Shaped dimension texts (raises e)

module _ (F : Type 0) (is_finite : F → Bool) (dimension : ℕ) where
  cons-Shaped :
      (v : List F) (n : ℕ) {e : Embedded F}
      → length v ≡ dimension
      → Shaped dimension n e
      → Shaped dimension (suc n) (cons_vector F is_finite v e)
  cons-Shaped v n h (shape vs count each) = shape (v ∷ vs) (omega (arith, count)) (h, each)
  cons-Shaped v n h (refusal e) = refusal e

module _ (F : Type 0) (is_finite : F → Bool) (digest : (seed counter : ℕ) → List F)
    (digest_size : (seed counter : ℕ) → length (digest seed counter) ≡ 32) where
  length-extend :
      (fuel dimension seed counter : ℕ) (v : List F)
      → dimension ≤ length v + fuel
      → dimension ≤ length (extend digest fuel dimension seed counter v)
  unfolding extend
  length-extend zero dimension seed counter v h = omega (arith, h)
  length-extend (suc fuel) dimension seed counter v h =
      elim (Bool-cases (ltb (length v) dimension)) [
        | inl short ↦ rw short (
            length-extend fuel dimension seed (counter + 1) (v ++ digest seed counter)
              (omega (arith, length-append v (digest seed counter), digest_size seed counter)))
        | inr long ↦ rw long (ground arith)
      ]
