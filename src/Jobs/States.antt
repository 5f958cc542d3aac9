-- ===== src/Jobs/States.antt =====
-- The state in which `_fail_job` (backend/src/rendercart/jobs/tasks.py) leaves a job.
use render_cart.Prelude.{◌≡◌, refl, String, some}
use render_cart.Quota.{Redis}
use render_cart.Jobs.{failed, Desk}
use render_cart.Jobs.Ending.{Ending, fail_job, mark_failed}
use render_cart.Jobs.Steps.{give_back_quotas-keeps}

module _ {redis : Redis} where
  pub fail_job-state :
      (e : Ending) (code : String) (d : Desk redis)
      → ((fail_job redis e code d).job.state ≡ failed)
        × ((fail_job redis e code d).job.error_code ≡ some code)
        × ((fail_job redis e code d).job.id ≡ d.job.id)
  unfolding fail_job
  fail_job-state e code d =
      give_back_quotas-keeps redis e
        (λ x. (x.job.state ≡ failed) × (x.job.error_code ≡ some code) × (x.job.id ≡ d.job.id))
        (record { set_store = λ d s c. c; set_words = λ d n c. c; set_seconds = λ d n c. c }) d.job
        (mark_failed redis e code d) (refl, refl, refl)

  pub fail_job-Failed :
      (e : Ending) (code : String) (d : Desk redis) → (fail_job redis e code d).job.state ≡ failed
  fail_job-Failed e code d = (fail_job-state e code d).0
