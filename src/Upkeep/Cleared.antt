-- ===== src/Upkeep/Cleared.antt =====
-- The outbox is emptied: `dispatch_paid_jobs` of backend/src/rendercart/jobs/tasks.py.
use mathlib.Core.List.{append-nil}
use render_cart.Prelude.{
  ◌++◌, sym, ap, ◌∙◌, ℕ, zero, suc, ◌*◌, ◌≤◌, ◌≡◌, refl, inl, inr, Bool, List, [], ◌∷◌, Bool-cases,
  arith,
}
use render_cart.Quota.{Redis}
use render_cart.Jobs.{Job}
use render_cart.Upkeep.{Dispatch, Rows, Upkeep}
use render_cart.Upkeep.Sending.{is_pending, dispatch_each, dispatch_paid_jobs}
use render_cart.Upkeep.Pending.{
  pending_count, pending_count-cons, one_if-true, accepting, dispatch_each-pending,
}
use render_cart.Upkeep.Rounds.{ready, cleared, handed, Toward, dispatch_each-Toward}

module _ (redis : Redis) (run : Upkeep) where
  -- Runs of the task one after the other.
  abbrev pub dispatch_runs : ℕ → List Job × Rows redis → List Job × Rows redis
  dispatch_runs zero s = s
  dispatch_runs (suc k) s =
      let (js, r, count) = dispatch_paid_jobs redis run accepting s.0 s.1 in dispatch_runs k (js, r)

  dispatch_runs-Toward :
      (p : ℕ → Bool) (k : ℕ) (js : List Job) (r : Rows redis)
      → ((i : ℕ) → ready run js i ≡ p i)
      → let (js', r') = dispatch_runs k (js, r) in
        Toward redis run p r.dispatches r.sent r'.dispatches js' r'
  unfolding dispatch_paid_jobs
  dispatch_runs-Toward p zero js r same = record {
    ready_same = same;
    rows_same = refl;
    sent_same = refl;
  }
  dispatch_runs-Toward p (suc k) js r same =
      let one = dispatch_each redis run accepting 100 r.dispatches js r in
      let first = dispatch_each-Toward redis run p 100 r.dispatches js r same in
      let later =
        dispatch_runs-Toward p k one.1 (record one.2 { dispatches = one.0 }) first.ready_same in
      record {
        ready_same = later.ready_same;
        rows_same = later.rows_same ∙ first.rows_same;
        sent_same = later.sent_same ∙ first.sent_same;
      }

  dispatch_runs-pending :
      (k : ℕ) (js : List Job) (r : Rows redis)
      → pending_count r.dispatches ≤ 100 * k
      → pending_count (dispatch_runs k (js, r)).1.dispatches ≡ 0
  unfolding dispatch_paid_jobs
  dispatch_runs-pending zero js r h = omega (arith, h)
  dispatch_runs-pending (suc k) js r h =
      let one = dispatch_each redis run accepting 100 r.dispatches js r in
      dispatch_runs-pending k one.1 (record one.2 { dispatches = one.0 })
        (omega (arith, dispatch_each-pending redis run 100 r.dispatches js r, h))

  -- Without a pending row there is nothing to do.
  nothing_pending :
      (p : ℕ → Bool) (ds : List Dispatch)
      → pending_count ds ≡ 0
      → (cleared run p ds ≡ ds) × (handed p ds ≡ [])
  nothing_pending p [] h = (refl, refl)
  nothing_pending p (d ∷ ds) h = elim (Bool-cases (is_pending d)) [
    | inl waits ↦
        absurd (omega (arith, pending_count-cons d ds, one_if-true (is_pending d) waits, h))
    | inr done ↦
        let fewer : pending_count ds ≡ 0 = omega (arith, pending_count-cons d ds, h) in
        let (rows, sent) = nothing_pending p ds fewer in rw done (ap (λ xs. d ∷ xs) rows, sent)
  ]

  -- With a broker that accepts, k runs clear the outbox of up to 100 k pending rows. In the order of
  -- the outbox, each pending row whose job is queued, with a tool that can run, is marked with the
  -- time, and its job is handed to the broker after the messages that were there; every other
  -- pending row is deleted without a message; the rows that were marked before stay; and no row is
  -- pending any more.
  pub dispatch_runs-clear :
      (k : ℕ) (js : List Job) (r : Rows redis)
      → pending_count r.dispatches ≤ 100 * k
      → let r' = (dispatch_runs k (js, r)).1 in
        (r'.dispatches ≡ cleared run (ready run js) r.dispatches)
        × (r'.sent ≡ r.sent ++ handed (ready run js) r.dispatches)
        × (pending_count r'.dispatches ≡ 0)
  dispatch_runs-clear k js r h =
      let r' = (dispatch_runs k (js, r)).1 in
      let t = dispatch_runs-Toward (ready run js) k js r (λ i. refl) in
      let clear = dispatch_runs-pending k js r h in
      let (rows, sent) = nothing_pending (ready run js) r'.dispatches clear in
      (
        sym rows ∙ t.rows_same,
        sym (append-nil r'.sent) ∙ ap (λ is. r'.sent ++ is) (sym sent) ∙ t.sent_same,
        clear,
      )
