-- ===== src/Runs/Cancel.antt =====
-- What canceling a run changes: `cancel_analysis_run` of backend/app/api/v1/analysis.py.
use jolly_jesters_mvp.Prelude.{
  ℕ, Bool, true, false, ◌&&◌, ◌||◌, Option, none, some, String, List, [], ◌∷◌, ◌++◌, ◌≤◌, countb,
  anyb, ◌==◌, ◌≡◌, refl, ap, sym, ◌∙◌, subst, arith, string_eq, Bool-cases, inl, inr, countb-append,
  countb-none, if-cases, if-elim,
}
use jolly_jesters_mvp.Enums.{AnalysisStatus, is_finished_status}
use jolly_jesters_mvp.Import.Text.{is_empty}
use jolly_jesters_mvp.Runs.{
  Reply, replied, RunRow, RunTask, RunTables, CurrentUser, get_run_status, verify_run_access,
  update_run, cancel_run, list_run_task_ids, add_to, set_of, add_root, task_ids, is_value,
  cancel_analysis_run,
}

abbrev has : String → List String → Bool
has s = anyb (λ x. string_eq.beq x s)

first_row :
    (id : ℕ) (s r : RunRow) (runs : List RunRow)
    → (s.id == id) ≡ true
    → get_run_status id (s ∷ runs) ≡ some r
    → s ≡ r
first_row id s r runs g e = ground arith

next_row :
    (id : ℕ) (s r : RunRow) (runs : List RunRow)
    → (s.id == id) ≡ false
    → get_run_status id (s ∷ runs) ≡ some r
    → get_run_status id runs ≡ some r
next_row id s r runs g e = ground arith

-- The run with a number is the first row with it; the rows keep their numbers.
get_run_status-update_run :
    (id : ℕ) (f : RunRow → RunRow) (runs : List RunRow) (r : RunRow)
    → ((s : RunRow) → (f s).id ≡ s.id)
    → get_run_status id runs ≡ some r
    → get_run_status id (update_run id f runs) ≡ some (f r)
get_run_status-update_run id f [] r k e = absurd (ground arith)
get_run_status-update_run id f (s ∷ runs) r k e = elim (Bool-cases (s.id == id)) [
  | inl g ↦ rw (g, ap (λ n. n == id) (k s) ∙ g) (ap (λ x. some (f x)) (first_row id s r runs g e))
  | inr g ↦ rw (g, g) (get_run_status-update_run id f runs r k (next_row id s r runs g e))
]

get_run_status-other :
    (id j : ℕ) (f : RunRow → RunRow) (runs : List RunRow)
    → ((s : RunRow) → (f s).id ≡ s.id)
    → (j == id) ≡ false
    → get_run_status j (update_run id f runs) ≡ get_run_status j runs
get_run_status-other id j f [] k e = refl
get_run_status-other id j f (s ∷ runs) k e = elim (Bool-cases (s.id == id)) [
  | inl g ↦ rw (g, ap (λ n. n == j) (k s)) (ground (arith, get_run_status-other id j f runs k e))
  | inr g ↦ rw (g) (ground (arith, get_run_status-other id j f runs k e))
]

-- A set of texts has each text once.
abbrev pub IsTextSet : List String → Type 0
IsTextSet set = (x : String) → countb (λ y. string_eq.beq y x) set ≤ 1

has-append :
    (x s : String) (set : List String) → has x (set ++ s ∷ []) ≡ (has x set || string_eq.beq s x)
has-append x s [] = ground arith
has-append x s (y ∷ set) = ground (arith, has-append x s set)

has-same : (x s : String) (set : List String) → string_eq.beq s x ≡ true → has s set ≡ has x set
has-same x s set e = ap (λ y. has y set) ((string_eq.beq_iff s x).0 e)

has_it :
    (x s : String) (set : List String)
    → has s set ≡ true
    → has x set ≡ (has x set || string_eq.beq s x)
has_it x s set h = elim (Bool-cases (string_eq.beq s x)) [
  | inl e ↦ rw (e, sym (has-same x s set e)) (ground arith)
  | inr e ↦ rw (e) (ground arith)
]

has-add_to :
    (x s : String) (set : List String) → has x (add_to s set) ≡ (has x set || string_eq.beq s x)
has-add_to x s set = elim (Bool-cases (has s set)) [
  | inl h ↦ rw (h) (has_it x s set h)
  | inr h ↦ rw (h) (has-append x s set)
]

has-set_of : (x : String) (set ss : List String) → has x (set_of set ss) ≡ (has x set || has x ss)
has-set_of x set [] = ground arith
has-set_of x set (s ∷ ss) = rw (has-set_of x (add_to s set) ss, has-add_to x s set) (ground arith)

countb-one_text :
    (x s : String) (set : List String)
    → has s set ≡ false
    → IsTextSet set
    → countb (λ y. string_eq.beq y x) (set ++ s ∷ []) ≤ 1
countb-one_text x s set h k = elim (Bool-cases (string_eq.beq s x)) [
  | inl e ↦
      rw
        (
          countb-append (λ y. string_eq.beq y x) set,
          e,
          countb-none (λ y. string_eq.beq y x) set (sym (has-same x s set e) ∙ h),
        )
        (omega arith)
  | inr e ↦ rw (countb-append (λ y. string_eq.beq y x) set, e) (omega (arith, k x))
]

add_to-IsTextSet : (s : String) (set : List String) → IsTextSet set → IsTextSet (add_to s set)
add_to-IsTextSet s set k x =
    if-cases (λ l. countb (λ y. string_eq.beq y x) l ≤ 1) (has s set) set (set ++ s ∷ []) (λ h. k x)
      (λ h. countb-one_text x s set h k)

set_of-IsTextSet : (set ss : List String) → IsTextSet set → IsTextSet (set_of set ss)
set_of-IsTextSet set [] k = k
set_of-IsTextSet set (s ∷ ss) k = set_of-IsTextSet (add_to s set) ss (add_to-IsTextSet s set k)

-- A recorded task of a run.
abbrev pub is_task_of : (run_id : ℕ) (x : String) → RunTask → Bool
is_task_of run_id x t = t.analysis_run_id == run_id && string_eq.beq t.celery_task_id x

has-list_run_task_ids :
    (x : String) (id : ℕ) (tasks : List RunTask)
    → is_empty x ≡ false
    → has x (list_run_task_ids id tasks) ≡ anyb (is_task_of id x) tasks
has-list_run_task_ids x id [] e = refl
has-list_run_task_ids x id (t ∷ tasks) e = elim (Bool-cases (string_eq.beq t.celery_task_id x)) [
  | inl h ↦
      rw (h, ap is_empty ((string_eq.beq_iff t.celery_task_id x).0 h) ∙ e)
        (ground (arith, h, has-list_run_task_ids x id tasks e))
  | inr h ↦ rw (h) (ground (arith, h, has-list_run_task_ids x id tasks e))
]

add_root-IsTextSet :
    (root : Option String) (set : List String) → IsTextSet set → IsTextSet (add_root root set)
add_root-IsTextSet none set k = k
add_root-IsTextSet (some task) set k =
    if-elim IsTextSet (is_empty task) set (add_to task set) k (add_to-IsTextSet task set k)

has-add_root :
    (x : String) (root : Option String) (set : List String)
    → is_empty x ≡ false
    → has x (add_root root set) ≡ (has x set || is_value root x)
has-add_root x none set e = ground arith
has-add_root x (some task) set e = elim (Bool-cases (string_eq.beq task x)) [
  | inl h ↦ rw (ap is_empty ((string_eq.beq_iff task x).0 h) ∙ e) (has-add_to x task set)
  | inr h ↦
      if-elim (λ l. has x l ≡ (has x set || string_eq.beq task x)) (is_empty task) set
        (add_to task set) (rw (h) (ground arith)) (has-add_to x task set)
]

-- Each recorded task of a run, and its root task, is among the ids once, and no other.
abbrev pub AreTasksOf : (run_id : ℕ) → RunRow → List RunTask → List String → Type 0
AreTasksOf run_id r tasks ids =
    IsTextSet ids
    × ((x : String)
        → is_empty x ≡ false
        → anyb (λ y. string_eq.beq y x) ids
          ≡ (anyb (is_task_of run_id x) tasks || is_value r.root_task_id x))

task_ids-AreTasksOf :
    (run_id : ℕ) (r : RunRow) (tasks : List RunTask)
    → AreTasksOf run_id r tasks (task_ids run_id r tasks)
task_ids-AreTasksOf run_id r tasks = (
  add_root-IsTextSet r.root_task_id (set_of [] (list_run_task_ids run_id tasks))
      (set_of-IsTextSet [] (list_run_task_ids run_id tasks) (λ x. omega arith)),
  λ x e.
      rw
        (
          has-add_root x r.root_task_id (set_of [] (list_run_task_ids run_id tasks)) e,
          has-set_of x [] (list_run_task_ids run_id tasks),
          has-list_run_task_ids x run_id tasks e,
        )
        refl,
)

cancel_run-id : (now : ℕ) (r : RunRow) → (cancel_run now r).id ≡ r.id
cancel_run-id now r =
    if-elim (λ (s : RunRow). s.id ≡ r.id) (is_finished_status r.status) r
      (record r { status = AnalysisStatus.canceled; canceled_at = some now }) refl refl

-- What a cancellation leaves in the tables and revokes.
abbrev pub Cancels :
    (now run_id : ℕ) → RunRow → RunTables → RunTables × List String × Reply RunRow → Type 0
Cancels now run_id r t (after, revoked, reply) =
    let canceled : RunRow = record r { status = AnalysisStatus.canceled; canceled_at = some now } in
    (reply ≡ replied canceled)
    × (get_run_status run_id after.runs ≡ some canceled)
    × ((j : ℕ) → (j == run_id) ≡ false → get_run_status j after.runs ≡ get_run_status j t.runs)
    × AreTasksOf run_id r t.tasks revoked

cancel_run-active :
    (now : ℕ) (r : RunRow)
    → is_finished_status r.status ≡ false
    → cancel_run now r ≡ record r { status = AnalysisStatus.canceled; canceled_at = some now }
cancel_run-active now r f = rw (f) refl

cancel_analysis_run-accepted :
    (now run_id : ℕ) (user : Option CurrentUser) (r : RunRow) (t : RunTables)
    → get_run_status run_id t.runs ≡ some r
    → verify_run_access user r ≡ true
    → is_finished_status r.status ≡ false
    → cancel_analysis_run now user run_id t ≡ (
      record t { runs = update_run run_id (cancel_run now) t.runs },
      task_ids run_id r t.tasks,
      replied (cancel_run now r),
    )
unfolding cancel_analysis_run
cancel_analysis_run-accepted now run_id user r t e v f = rw (e, cancel_analysis_run, v, f) refl

-- A run that is there, that the user may see and that is not finished becomes canceled, every other
-- run stays as it is, and each of its recorded tasks and its root task is revoked once, and no other
-- task.
pub cancel_analysis_run-Cancels :
    (now run_id : ℕ) (user : Option CurrentUser) (r : RunRow) (t : RunTables)
    → get_run_status run_id t.runs ≡ some r
    → verify_run_access user r ≡ true
    → is_finished_status r.status ≡ false
    → Cancels now run_id r t (cancel_analysis_run now user run_id t)
cancel_analysis_run-Cancels now run_id user r t e v f =
    let found = get_run_status-update_run run_id (cancel_run now) t.runs r (cancel_run-id now) e in
    subst (Cancels now run_id r t) (sym (cancel_analysis_run-accepted now run_id user r t e v f)) (
      ap replied (cancel_run-active now r f),
      found ∙ ap some (cancel_run-active now r f),
      λ j h. get_run_status-other run_id j (cancel_run now) t.runs (cancel_run-id now) h,
      task_ids-AreTasksOf run_id r t.tasks,
    )
