-- ===== src/Runs.antt =====
-- The runs and who may start, see and cancel them: the run queries of
-- backend/app/services/analysis_service.py, and `_check_concurrent_limit`, `_verify_run_access`,
-- `cancel_analysis_run` and the enqueueing of backend/app/api/v1/analysis.py. UUIDs are texts, and
-- `task` is the id that the queue gives, `none` where it raises an exception.
pub mod Admission
pub mod Cancel
mod Tests
use jolly_jesters_mvp.Prelude.{
  ℕ, suc, ◌+◌, Bool, true, false, not, ◌&&◌, ◌||◌, Option, none, some, String, List, [], ◌∷◌, ◌++◌,
  map, length, take, filterb, findb, anyb, ◌==◌, leb, ltb, if◌then◌else◌, string_eq,
}
use jolly_jesters_mvp.Prelude.Sort.{sort_by}
use jolly_jesters_mvp.Enums.{AnalysisStatus, is_active_status, is_finished_status}
use jolly_jesters_mvp.Import.Text.{is_empty}

-- What a handler answers: a value, or the status code of an HTTPException.
pub data Reply (A : Type 0) : Type 0 where
  http_error : (status_code : ℕ) → Reply A
  replied : A → Reply A

-- The columns of `AnalysisRun` that the handlers read and write.
pub record RunRow : Type 0 where
  pub id : ℕ
  pub tenant_id : Option String
  pub user_id : Option String
  pub category_id : ℕ
  pub status : AnalysisStatus
  pub error_message : Option String
  pub created_at : ℕ
  pub canceled_at : Option ℕ
  pub root_task_id : Option String
  pub total_products : ℕ

-- `AnalysisRunTask`
pub record RunTask : Type 0 where
  pub analysis_run_id : ℕ
  pub celery_task_id : String
  pub kind : String

pub record RunTables : Type 0 where
  pub runs : List RunRow
  pub tasks : List RunTask

pub record CurrentUser : Type 0 where
  pub user_id : String
  pub tenant_id : String

-- `settings.concurrency_global_max` and `settings.concurrency_per_user`
pub record Limits : Type 0 where
  pub concurrency_global_max : ℕ
  pub concurrency_per_user : ℕ

abbrev pub is_active_run : RunRow → Bool
is_active_run r = is_active_status r.status

-- `ORDER BY created_at DESC`
abbrev pub is_newer : RunRow → RunRow → Bool
is_newer r s = leb s.created_at r.created_at

-- A nullable column compared with a value.
abbrev pub is_value : Option String → String → Bool
is_value none s = false
is_value (some t) s = string_eq.beq t s

abbrev pub in_tenant : Option String → RunRow → Bool
in_tenant none r = true
in_tenant (some t) r = is_value r.tenant_id t

-- `list_active_runs` of the service
unfoldable pub list_active_runs :
    (limit : ℕ) → (tenant_id : Option String) → List RunRow → List RunRow
list_active_runs limit tenant_id runs =
    take limit (sort_by is_newer (filterb (λ r. is_active_run r && in_tenant tenant_id r) runs))

-- `get_run_status`
abbrev pub get_run_status : (run_id : ℕ) → List RunRow → Option RunRow
get_run_status run_id runs = findb (λ r. r.id == run_id) runs

abbrev pub is_owned_by : CurrentUser → RunRow → Bool
is_owned_by u r = is_value r.user_id u.user_id

-- The second half of `_check_concurrent_limit`.
abbrev pub check_user_limit : Limits → Option CurrentUser → (all_active : List RunRow) → Reply Unit
check_user_limit k none all_active = replied tt
check_user_limit k (some u) all_active =
    if leb k.concurrency_per_user (length (filterb (is_owned_by u) all_active))
    then http_error 429
    else replied tt

-- `_check_concurrent_limit`
unfoldable pub check_concurrent_limit : Limits → Option CurrentUser → List RunRow → Reply Unit
check_concurrent_limit k user runs =
    let all_active = list_active_runs (k.concurrency_global_max + 1) none runs in
    if leb k.concurrency_global_max (length all_active)
    then http_error 429
    else check_user_limit k user all_active

abbrev pub is_users_tenant : Option CurrentUser → (tenant : String) → Bool
is_users_tenant none tenant = false
is_users_tenant (some u) tenant = string_eq.beq u.tenant_id tenant

-- `_verify_run_access`, for a run that is there: whether it returns.
unfoldable pub verify_run_access : Option CurrentUser → RunRow → Bool
verify_run_access user r = elim r.tenant_id [ none ↦ true | some t ↦ is_users_tenant user t ]

-- `record_run_task`
abbrev pub record_run_task : (run_id : ℕ) (task_id kind : String) → List RunTask → List RunTask
record_run_task run_id task_id kind tasks =
    if is_empty task_id
    then tasks
    else tasks ++ record { analysis_run_id = run_id; celery_task_id = task_id; kind = kind } ∷ []

abbrev pub update_run : (run_id : ℕ) → (RunRow → RunRow) → List RunRow → List RunRow
update_run run_id f = map (λ r. if r.id == run_id then f r else r)

-- What all handlers that start a run do with the new run: its owner, and the task.
abbrev pub own_run : Option CurrentUser → RunRow → RunRow
own_run none r = r
own_run (some u) r = record r { tenant_id = some u.tenant_id; user_id = some u.user_id }

abbrev pub fail_to_enqueue : RunRow → RunRow
fail_to_enqueue r = record r {
  status = AnalysisStatus.failed;
  error_message = some "Nie udalo sie uruchomic zadania";
}

unfoldable pub enqueue_run :
    Option CurrentUser → (task : Option String) → RunRow → RunTables → RunTables × Reply RunRow
enqueue_run user none new t =
    (record t { runs = t.runs ++ fail_to_enqueue (own_run user new) ∷ [] }, http_error 503)
enqueue_run user (some task) new t =
    let r : RunRow = record (own_run user new) { root_task_id = some task } in
    (
      record {
        runs = t.runs ++ r ∷ [];
        tasks = record_run_task new.id task "run_analysis" t.tasks;
      },
      replied r,
    )

-- `cancel_analysis_run` of the service
abbrev pub cancel_run : (now : ℕ) → RunRow → RunRow
cancel_run now r =
    if is_finished_status r.status
    then r
    else record r { status = AnalysisStatus.canceled; canceled_at = some now }

-- `list_run_task_ids`
abbrev pub list_run_task_ids : (run_id : ℕ) → List RunTask → List String
list_run_task_ids run_id [] = []
list_run_task_ids run_id (t ∷ ts) =
    let rest = list_run_task_ids run_id ts in
    if t.analysis_run_id == run_id && not (is_empty t.celery_task_id)
    then t.celery_task_id ∷ rest
    else rest

-- A set of texts, as the list of its elements in the order in which they came.
abbrev pub add_to : String → List String → List String
add_to s set = if anyb (λ x. string_eq.beq x s) set then set else set ++ s ∷ []

abbrev pub set_of : List String → List String → List String
set_of set [] = set
set_of set (s ∷ ss) = set_of (add_to s set) ss

abbrev pub add_root : (root_task_id : Option String) → List String → List String
add_root none set = set
add_root (some task) set = if is_empty task then set else add_to task set

-- The ids of the tasks that the handler revokes.
abbrev pub task_ids : (run_id : ℕ) → RunRow → List RunTask → List String
task_ids run_id r tasks = add_root r.root_task_id (set_of [] (list_run_task_ids run_id tasks))

-- `cancel_analysis_run` of the handlers: the tables, the ids of the revoked tasks, and the answer.
unfoldable pub cancel_analysis_run :
    (now : ℕ)
    → Option CurrentUser
    → (run_id : ℕ) → RunTables
    → RunTables × List String × Reply RunRow
cancel_analysis_run now user run_id t = elim (get_run_status run_id t.runs) [
  | none ↦ (t, [], http_error 404)
  | some r ↦
      if not (verify_run_access user r)
      then (t, [], http_error 404)
      else if is_finished_status r.status
      then (t, [], http_error 400)
      else (
        record t { runs = update_run run_id (cancel_run now) t.runs },
        task_ids run_id r t.tasks,
        replied (cancel_run now r),
      )
]
