-- ===== src/Upkeep/Cleaning.antt =====
-- `cleanup_expired` of backend/src/rendercart/jobs/tasks.py, query by query.
use text.Mathlib.Text.{◌==◌ as str_eq}
use render_cart.Prelude.{
  ℕ, ◌+◌, String, Bool, true, false, not, ◌&&◌, Option, none, some, List, [], ◌∷◌, ◌++◌,
  if◌then◌else◌, ◌==◌, leb, length, filter_by,
}
use render_cart.Quota.{Redis}
use render_cart.Registry.{ToolManifest}
use render_cart.Batch.{execution_timeout}
use render_cart.Billing.{Purchase, PurchaseStatus}
use render_cart.Jobs.{Job, JobState}
use render_cart.Upkeep.{ChatDocument, ChatTurn, Rows, StoredUpload, TurnStatus, Upkeep, fail_row}

-- An active job whose time is over: it waits or runs a minute longer than its tool may take.
abbrev pub overdue : (now timeout : ℕ) → Option ℕ → Bool
overdue now timeout none = false
overdue now timeout (some reference) = leb (reference + (timeout + 60)) now

abbrev pub reference_time : Job → JobState → Option ℕ
reference_time j JobState.running = j.started_at
reference_time j _ = some j.created_at

abbrev pub stale_with : (now : ℕ) → Job → Option ToolManifest → Bool
stale_with now j none = true
stale_with now j (some tool) =
    overdue now (execution_timeout tool (length j.input_upload_ids) j.options.batch_mode)
      (reference_time j j.state)

abbrev pub is_active : JobState → Bool
is_active JobState.queued = true
is_active JobState.running = true
is_active _ = false

unfoldable pub is_stale : Upkeep → Job → Bool
is_stale run j = is_active j.state && stale_with run.now j (run.registry j.tool_slug)

abbrev pub is_awaiting : JobState → Bool
is_awaiting JobState.awaiting_payment = true
is_awaiting _ = false

-- A job that nobody paid in time.
unfoldable pub is_abandoned : (now : ℕ) → Job → Bool
is_abandoned now j = is_awaiting j.state && leb j.expires_at now

abbrev pub is_over : JobState → Bool
is_over JobState.succeeded = true
is_over JobState.failed = true
is_over JobState.cancelled = true
is_over _ = false

-- An ended job whose retention is over.
unfoldable pub is_expired : (now : ℕ) → Job → Bool
is_expired now j = is_over j.state && leb j.expires_at now

abbrev pub cancel : (now : ℕ) → Job → Job
cancel now j = record j {
  state = JobState.cancelled;
  error_code = some "payment_expired";
  finished_at = some now;
}

abbrev pub same_id : Option ℕ → ℕ → Bool
same_id none i = false
same_id (some j) i = j == i

abbrev pub expire_status : PurchaseStatus → PurchaseStatus
expire_status PurchaseStatus.pending = PurchaseStatus.expired
expire_status s = s

-- The pending purchases of an abandoned job.
abbrev pub expire_purchases : (job : ℕ) → List Purchase → List Purchase
expire_purchases job [] = []
expire_purchases job (p ∷ ps) =
    (if same_id p.job_id job then record p { status = expire_status p.status } else p)
    ∷ expire_purchases job ps

abbrev pub is_open : TurnStatus → Bool
is_open TurnStatus.queued = true
is_open TurnStatus.running = true
is_open _ = false

abbrev pub time_out : (now : ℕ) → ChatTurn → ChatTurn
time_out now t =
    if is_open t.status
    then record t {
      status = TurnStatus.failed;
      error_code = some "worker_timeout";
      completed_at = some now;
    }
    else t

abbrev pub time_out_turn : (now : ℕ) → Option ℕ → List ChatTurn → List ChatTurn
time_out_turn now none ts = ts
time_out_turn now (some i) [] = []
time_out_turn now (some i) (t ∷ ts) =
    if t.id == i then time_out now t ∷ ts else t ∷ time_out_turn now (some i) ts

abbrev pub key_list : Option String → List String
key_list none = []
key_list (some k) = k ∷ []

module _ (redis : Redis) where
  -- The turn of a document chat fails with its job.
  abbrev pub fail_turn : Upkeep → Job → Rows redis → Rows redis
  fail_turn run j r =
      if str_eq j.tool_slug "chat-with-pdf"
      then record r { turns = time_out_turn run.now (run.turn_id j) r.turns }
      else r

  unfoldable pub cancel_abandoned : Upkeep → List Job → Rows redis → List Job × Rows redis
  cancel_abandoned run [] r = ([], r)
  cancel_abandoned run (j ∷ js) r =
      if is_abandoned run.now j
      then (let (js', r') =
            cancel_abandoned run js (record r { purchases = expire_purchases j.id r.purchases }) in
          (cancel run.now j ∷ js', r'))
      else (let (js', r') = cancel_abandoned run js r in (j ∷ js', r'))

  unfoldable pub fail_stale : Upkeep → List Job → Rows redis → List Job × Rows redis
  unfolding fail_row
  fail_stale run [] r = ([], r)
  fail_stale run (j ∷ js) r =
      if is_stale run j
      then (let (j', r') = fail_row redis run "worker_timeout" j (fail_turn run j r) in
          let (js', r'') = fail_stale run js r' in (j' ∷ js', r''))
      else (let (js', r') = fail_stale run js r in (j ∷ js', r'))

  -- The row of a job goes with its objects and its dispatch; a purchase loses its reference.
  abbrev pub forget_purchase : (job : ℕ) → List Purchase → List Purchase
  forget_purchase job [] = []
  forget_purchase job (p ∷ ps) =
      (if same_id p.job_id job then record p { job_id = none } else p) ∷ forget_purchase job ps

  abbrev pub delete_job : Job → Rows redis → Rows redis
  delete_job j r = record r {
    deleted_objects = r.deleted_objects ++ key_list j.output.key ++ key_list j.locked_output.key;
    dispatches = filter_by (λ d. not (d.job_id == j.id)) r.dispatches;
    purchases = forget_purchase j.id r.purchases;
  }

  unfoldable pub delete_expired : Upkeep → List Job → Rows redis → List Job × Rows redis × ℕ
  delete_expired run [] r = ([], r, 0)
  delete_expired run (j ∷ js) r =
      if is_expired run.now j
      then (let (js', r', n) = delete_expired run js (delete_job j r) in (js', r', n + 1))
      else (let (js', r', n) = delete_expired run js r in (j ∷ js', r', n))

  abbrev pub lapsed_document : (now : ℕ) → ChatDocument → Bool
  lapsed_document now d = elim d.expires_at [ none ↦ false | some t ↦ leb t now ]

  abbrev pub lapsed_upload : (now : ℕ) → StoredUpload → Bool
  lapsed_upload now u = leb u.expires_at now

  abbrev pub object_keys : List StoredUpload → List String
  object_keys [] = []
  object_keys (u ∷ us) = u.object_key ∷ object_keys us

  abbrev pub delete_uploads : Upkeep → Rows redis → Rows redis
  delete_uploads run r = record r {
    deleted_objects =
        r.deleted_objects ++ object_keys (filter_by (lapsed_upload run.now) r.uploads);
    uploads = filter_by (λ u. not (lapsed_upload run.now u)) r.uploads;
  }

  abbrev pub delete_documents : Upkeep → Rows redis → Rows redis
  delete_documents run r = record r {
    documents = filter_by (λ d. not (lapsed_document run.now d)) r.documents;
  }

  -- `cleanup_expired`, after the alerts by SMS that were never settled (Alerts): the jobs, the rows,
  -- and the number of the rows removed.
  unfoldable pub cleanup_expired : Upkeep → List Job → Rows redis → List Job × Rows redis × ℕ
  unfolding cancel_abandoned fail_stale delete_expired
  cleanup_expired run js r =
      let (js1, r1) = cancel_abandoned run js (delete_documents run r) in
      let (js2, r2) = fail_stale run js1 r1 in
      let (js3, r3, n) = delete_expired run js2 r2 in
      (
        js3,
        delete_uploads run r3,
        length (filter_by (lapsed_document run.now) r.documents)
            + n
            + length (filter_by (lapsed_upload run.now) r.uploads),
      )
