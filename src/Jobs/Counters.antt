-- ===== src/Jobs/Counters.antt =====
-- The quota counters of a job through `execute_tool` (backend/src/rendercart/jobs/tasks.py).
use text.Mathlib.Text.{◌==◌ as str_eq}
use text.Mathlib.TextEquality.{eq_iff}
use render_cart.Prelude.{
  ℕ, suc, ◌+◌, ◌≡◌, ◌≢◌, refl, sym, ap, subst, ◌∙◌, ◌⊎◌, inl, inr, Bool, true, false, String,
  Option, none, some, arith, if◌then◌else◌, Bool-cases, ◌*◌,
}
use render_cart.Prelude.Int.{pos}
use render_cart.Quota.{Redis, value, number, release_amount, release_key, reserve_amount}
use render_cart.Quota.Laws.{release_amount_lem, release_key_lem, reserve_amount_lem, quota_frame}
use render_cart.Jobs.{
  Job, Desk, KeyNames, reserve_word_quota, reserve_duration_quota, whole_seconds,
}
use render_cart.Jobs.Steps.{Leads}
use render_cart.Jobs.Ending.{
  Ending, fail_job, mark_failed, give_back_words, give_back_seconds, give_back_slot,
}

-- What a reservation of `n` under a key is to the counter `k`.
abbrev pub on_key : Option String → String → ℕ → ℕ
on_key none k n = 0
on_key (some j) k n = if str_eq j k then n else 0

abbrev pub slot : Bool → ℕ
slot reserved = if reserved then 1 else 0

-- What a job has reserved of the counter `k`.
abbrev pub reserved_by : Job → String → ℕ
reserved_by job k =
    on_key job.word_quota_key k job.word_quota_reserved_words
    + on_key job.duration_quota_key k job.duration_quota_reserved_seconds
    + on_key job.quota_key k (slot job.quota_reserved)

other_key : (j k : String) → str_eq j k ≡ false → j ≢ k
other_key j k e same = ground (arith, eq_iff j k, same, e)

module _ (redis : Redis) where
  release_amount-on :
      (j k : String) (m n : ℕ) (s : redis.Store)
      → value redis k s ≡ pos (n + on_key (some j) k m)
      → value redis k (release_amount redis j m s) ≡ pos n
  release_amount-on j k m n s h = elim (Bool-cases (str_eq j k)) [
    | inl same ↦
        let e : j ≡ k = ground (arith, eq_iff j k) in
        let h' : value redis j s ≡ pos (n + m) = ground (arith, e) in
        subst (λ x. value redis x (release_amount redis j m s) ≡ pos n) e
          (release_amount_lem redis j (n + m) m s h' ∙ ap pos (omega arith))
    | inr other ↦
        let frame = quota_frame redis j k m 0 0 s (other_key j k other) in
        ap number frame.3 ∙ ground arith
  ]

  release_key-on :
      (j k : String) (n : ℕ) (s : redis.Store)
      → value redis k s ≡ pos (n + on_key (some j) k 1)
      → value redis k (release_key redis j s) ≡ pos n
  release_key-on j k n s h = elim (Bool-cases (str_eq j k)) [
    | inl same ↦
        let e : j ≡ k = ground (arith, eq_iff j k) in
        let h' : value redis j s ≡ pos (suc n) = ground (arith, e) in
        subst (λ x. value redis x (release_key redis j s) ≡ pos n) e
          (release_key_lem redis j n s h')
    | inr other ↦
        let frame = quota_frame redis j k 0 0 0 s (other_key j k other) in
        ap number frame.1 ∙ ground arith
  ]

  -- A reservation is counted exactly if it is granted.
  abbrev pub ReservedOn : (j k : String) → (m n : ℕ) → Bool × redis.Store → Type 0
  ReservedOn j k m n (granted, s) =
      ((granted ≡ true) × (value redis k s ≡ pos (n + on_key (some j) k m)))
      ⊎ ((granted ≡ false) × (value redis k s ≡ pos n))

  pub reserve_amount-on :
      (j k : String) (m maximum ttl n : ℕ) (s : redis.Store)
      → value redis k s ≡ pos n
      → ReservedOn j k m n (reserve_amount redis j m maximum ttl s)
  reserve_amount-on j k m maximum ttl n s h = elim (Bool-cases (str_eq j k)) [
    | inl same ↦
        let e : j ≡ k = ground (arith, eq_iff j k) in
        let h' : value redis j s ≡ pos n = subst (λ x. value redis x s ≡ pos n) (sym e) h in
        elim (reserve_amount_lem redis j n m maximum ttl s h') [
          | inl (p, le, granted, v) ↦ inl (
            granted,
            subst (λ x. value redis x (reserve_amount redis j m maximum ttl s).1 ≡ pos (n + m)) e v
                ∙ ap pos (ground arith),
          )
          | inr (why, refused) ↦ inr (ap (λ r. r.0) refused, rw refused h)
        ]
    | inr other ↦
        let frame = quota_frame redis j k m maximum ttl s (other_key j k other) in
        let kept : value redis k (reserve_amount redis j m maximum ttl s).1 ≡ pos n =
          ap number frame.2 ∙ h in
        elim (Bool-cases (reserve_amount redis j m maximum ttl s).0) [
          | inl granted ↦ inl (granted, kept ∙ ap pos (ground arith))
          | inr refused ↦ inr (refused, kept)
        ]
  ]

module _ (redis : Redis) (e : Ending) (k : String) where
  give_back_words-value :
      (o : Option String) (n : ℕ) (d : Desk redis)
      → value redis k d.store ≡ pos (n + on_key o k d.job.word_quota_reserved_words)
      → value redis k (give_back_words redis e o d).store ≡ pos n
  give_back_words-value none n d h = h ∙ ap pos (omega arith)
  give_back_words-value (some j) n d h =
      ground (arith, release_amount-on redis j k d.job.word_quota_reserved_words n d.store h)

  give_back_seconds-value :
      (o : Option String) (n : ℕ) (d : Desk redis)
      → value redis k d.store ≡ pos (n + on_key o k d.job.duration_quota_reserved_seconds)
      → value redis k (give_back_seconds redis e o d).store ≡ pos n
  give_back_seconds-value none n d h = h ∙ ap pos (omega arith)
  give_back_seconds-value (some j) n d h =
      ground (arith, release_amount-on redis j k d.job.duration_quota_reserved_seconds n d.store h)

  give_back_slot-value :
      (o : Option String) (n : ℕ) (d : Desk redis)
      → value redis k d.store ≡ pos (n + on_key o k (slot d.job.quota_reserved))
      → value redis k (give_back_slot redis e o d).store ≡ pos n
  give_back_slot-value none n d h = h ∙ ap pos (omega arith)
  give_back_slot-value (some j) n d h = ground (arith, release_key-on redis j k n d.store)

  -- What the earlier releases leave of the job for the later ones.
  give_back_words-same :
      (o : Option String) (d : Desk redis)
      → let d' = give_back_words redis e o d in
        (d'.job.duration_quota_reserved_seconds ≡ d.job.duration_quota_reserved_seconds)
        × (d'.job.quota_reserved ≡ d.job.quota_reserved)
  give_back_words-same none d = (refl, refl)
  give_back_words-same (some j) d = ground arith

  give_back_seconds-same :
      (o : Option String) (d : Desk redis)
      → (give_back_seconds redis e o d).job.quota_reserved ≡ d.job.quota_reserved
  give_back_seconds-same none d = refl
  give_back_seconds-same (some j) d = ground arith

  -- A job that fails gives back, of each counter, exactly what it has reserved of it.
  pub fail_job-value :
      (code : String) (n : ℕ) (d : Desk redis)
      → value redis k d.store ≡ pos (n + reserved_by d.job k)
      → value redis k (fail_job redis e code d).store ≡ pos n
  unfolding fail_job
  fail_job-value code n d h =
      let words = on_key d.job.word_quota_key k d.job.word_quota_reserved_words in
      let seconds = on_key d.job.duration_quota_key k d.job.duration_quota_reserved_seconds in
      let last = on_key d.job.quota_key k (slot d.job.quota_reserved) in
      let d1 = mark_failed redis e code d in
      let d2 = give_back_words redis e d.job.word_quota_key d1 in
      let d3 = give_back_seconds redis e d.job.duration_quota_key d2 in
      let same = give_back_words-same d.job.word_quota_key d1 in
      let h2 =
        give_back_words-value d.job.word_quota_key (n + last + seconds) d1
          (h ∙ ap pos (omega arith)) in
      let h3 = give_back_seconds-value d.job.duration_quota_key (n + last) d2 (rw same.0 h2) in
      give_back_slot-value d.job.quota_key n d3
        (rw (give_back_seconds-same d.job.duration_quota_key d2, same.1) h3)

module _ (redis : Redis) (names : KeyNames) (k : String) (n : ℕ) where
  -- The counter `k` has `n` besides what the job has reserved of it.
  abbrev pub Counted : Desk redis → Type 0
  Counted d = value redis k d.store ≡ pos (n + reserved_by d.job k)

  -- No reservation of words, or of seconds, has been made yet.
  abbrev pub Unreserved : Desk redis → Type 0
  Unreserved d = Counted d × (d.job.word_quota_key ≡ none) × (d.job.duration_quota_key ≡ none)

  abbrev pub WordsReserved : Desk redis → Type 0
  WordsReserved d = Counted d × (d.job.duration_quota_key ≡ none)

  pub reserve_word_quota-Counted :
      (words maximum : ℕ)
      → Leads Unreserved WordsReserved (reserve_word_quota redis names words maximum)
  unfolding reserve_word_quota
  reserve_word_quota-Counted words maximum d (c, w, s) =
      let j = names.word_key in
      let seconds = on_key d.job.duration_quota_key k d.job.duration_quota_reserved_seconds in
      let last = on_key d.job.quota_key k (slot d.job.quota_reserved) in
      let before : value redis k d.store ≡ pos (n + (seconds + last)) =
        (rw w at c) ∙ ap pos (omega arith) in
      elim (reserve_amount-on redis j k words maximum 172800 (n + (seconds + last)) d.store
        before) [
          | inl (g, v) ↦
              let v' : value redis k (reserve_amount redis j words maximum 172800 d.store).1
                  ≡ pos (n + (on_key (some j) k words + seconds + last)) =
                v ∙ ap pos (omega arith) in
              ground (arith, g, v', c, s)
          | inr (g, v) ↦ ground (arith, g, v ∙ sym before ∙ c, c, s)
        ]

  pub reserve_duration_quota-Counted :
      (us maximum : ℕ) → Leads WordsReserved Counted (reserve_duration_quota redis names us maximum)
  unfolding reserve_duration_quota
  reserve_duration_quota-Counted us maximum d (c, s) =
      let j = names.duration_key in
      let m = whole_seconds us in
      let words = on_key d.job.word_quota_key k d.job.word_quota_reserved_words in
      let last = on_key d.job.quota_key k (slot d.job.quota_reserved) in
      let before : value redis k d.store ≡ pos (n + (words + last)) =
        (rw s at c) ∙ ap pos (omega arith) in
      elim (reserve_amount-on redis j k m (maximum * 60) names.duration_ttl (n + (words + last))
        d.store before) [
          | inl (g, v) ↦
              let v' : value redis k
                    (reserve_amount redis j m (maximum * 60) names.duration_ttl d.store).1
                  ≡ pos (n + (words + on_key (some j) k m + last)) =
                v ∙ ap pos (omega arith) in
              ground (arith, g, v', c)
          | inr (g, v) ↦ ground (arith, g, v ∙ sym before ∙ c, c)
        ]
