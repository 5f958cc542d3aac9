-- ===== src/Quota/Memory.antt =====
-- A Redis that keeps its keys in a function: the assumed laws can hold. It forgets the expiry.
use text.Mathlib.Text.{◌==◌ as str_eq}
use text.Mathlib.TextEquality.{eq_iff}
use text.Mathlib.TextPositions.{eq_refl}
use render_cart.Prelude.{◌≡◌, ◌≢◌, refl, String, Option, none, some, if◌then◌else◌, arith}
use render_cart.Prelude.Int.{ℤ, ◌+ℤ◌}
use render_cart.Quota.{Redis, number}

abbrev pub Keys : Type 0
Keys = String → Option ℤ

abbrev pub write : String → Option ℤ → Keys → Keys
write k v s j = if str_eq j k then v else s j

pub write_self : (k : String) (v : Option ℤ) (s : Keys) → write k v s k ≡ v
write_self k v s = rw eq_refl

pub write_ne : (k j : String) (v : Option ℤ) (s : Keys) → k ≢ j → write k v s j ≡ s j
write_ne k j v s ne = ground (arith, eq_iff j k)

abbrev pub memory : Redis
memory = record {
  Store = Keys;
  get = λ k s. s k;
  incrby = λ k n s. write k (some (number (s k) +ℤ n)) s;
  expire = λ k ttl s. s;
  del = λ k s. write k none s;
  get-incrby_self = λ k n s. write_self k (some (number (s k) +ℤ n)) s;
  get-incrby_ne = λ k j n s ne. write_ne k j (some (number (s k) +ℤ n)) s ne;
  get-expire = λ k j ttl s. refl;
  get-del_self = λ k s. write_self k none s;
  get-del_ne = λ k j s ne. write_ne k j none s ne;
}
