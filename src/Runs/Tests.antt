-- ===== src/Runs/Tests.antt =====
-- Witnesses for the theorems on runs.
use jolly_jesters_mvp.Prelude.{ℕ, true, none, some, List, [], ◌∷◌, ◌≡◌, ◌<◌, ◌↔◌, refl}
use jolly_jesters_mvp.Enums.{AnalysisStatus}
use jolly_jesters_mvp.Runs.{
  replied, RunRow, RunTables, CurrentUser, Limits, check_concurrent_limit, list_active_runs,
  enqueue_run, verify_run_access, cancel_analysis_run,
}
use jolly_jesters_mvp.Runs.Admission.{
  IsBelowUserLimit, IsWithinLimits, check_concurrent_limit_iff, enqueue_run-IsWithinLimits,
}
use jolly_jesters_mvp.Runs.Cancel.{Cancels, cancel_analysis_run-Cancels}

abbrev a_run : ℕ → AnalysisStatus → RunRow
a_run id status = record {
  id = id;
  tenant_id = some "t";
  user_id = some "u";
  category_id = 7;
  status = status;
  error_message = none;
  created_at = id;
  canceled_at = none;
  root_task_id = some "root";
  total_products = 3;
}

abbrev runs : List RunRow
runs = a_run 1 AnalysisStatus.completed ∷ a_run 2 AnalysisStatus.running ∷ []

abbrev tables : RunTables
tables = record {
  runs = runs;
  tasks =
      record { analysis_run_id = 2; celery_task_id = "root"; kind = "run_analysis" }
      ∷ record { analysis_run_id = 2; celery_task_id = "more"; kind = "run_analysis" }
      ∷ record { analysis_run_id = 1; celery_task_id = "other"; kind = "run_analysis" }
      ∷ [];
}

abbrev user : CurrentUser
user = record { user_id = "u"; tenant_id = "t" }

abbrev limits : Limits
limits = record { concurrency_global_max = 5; concurrency_per_user = 2 }

may_start : check_concurrent_limit limits (some user) runs ≡ replied tt
unfolding check_concurrent_limit list_active_runs
may_start = refl

may_see : verify_run_access (some user) (a_run 2 AnalysisStatus.running) ≡ true
unfolding verify_run_access
may_see = refl

revoked_tasks : (cancel_analysis_run 9 (some user) 2 tables).1 ≡ "root" ∷ "more" ∷ []
unfolding cancel_analysis_run verify_run_access
revoked_tasks = refl

check_concurrent_limit_iff_example :
    (check_concurrent_limit limits (some user) runs ≡ replied tt)
    ↔ ((1 < 5) × IsBelowUserLimit limits (some user) runs)
check_concurrent_limit_iff_example = check_concurrent_limit_iff limits (some user) runs

enqueue_run-IsWithinLimits_example :
    IsWithinLimits limits
      (some user)
      (enqueue_run (some user) (some "new") (a_run 3 AnalysisStatus.pending) tables).0.runs
enqueue_run-IsWithinLimits_example =
    enqueue_run-IsWithinLimits limits (some user) (some "new") (a_run 3 AnalysisStatus.pending)
      tables may_start

cancel_analysis_run-Cancels_example :
    Cancels 9 2 (a_run 2 AnalysisStatus.running) tables (cancel_analysis_run 9 (some user) 2 tables)
cancel_analysis_run-Cancels_example =
    cancel_analysis_run-Cancels 9 2 (some user) (a_run 2 AnalysisStatus.running) tables refl may_see
      refl
