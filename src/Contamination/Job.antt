-- ===== src/Contamination/Job.antt =====
-- backend/app/tasks/contamination_tasks.py: the Celery task around a detection run. What one run does
-- is an `Attempt`; the broker may deliver the task again after a transient error, so a history of
-- deliveries is a list of attempts.
use eval_ledger.Base.{
  ℕ, ◌≡◌, ◌≢◌, refl, false, Option, none, some, List, [], ◌∷◌, ◌++◌, select, ◌==◌, All,
}
use eval_ledger.Contamination.Classify.{error}
use eval_ledger.Contamination.Reports.{Tables, Version, of_version, set_status}
use eval_ledger.Contamination.Reports.Verdict.{set_status-select, set_status-other}

-- The exceptions that the task tells apart: a member of TRANSIENT_ERRORS, SoftTimeLimitExceeded, any
-- other.
pub data JobError : Type 0 where
  transient soft_time_limit permanent : JobError

-- `_run_job`: it commits tables, or raises and its session is dropped.
pub data Attempt : Type 0 where
  committed : (Tables → Tables) → Attempt
  raised : JobError → Attempt

-- `_mark_version_error`; a version that is gone is left alone.
unfoldable pub mark_version_error : ℕ → Tables → Tables
unfolding set_status
mark_version_error version_id db = record db { versions = set_status version_id error db.versions }

abbrev mark_if_named : Option ℕ → Tables → Tables
mark_if_named none db = db
mark_if_named (some version_id) db = mark_version_error version_id db

-- `run_contamination_check`: the tables that it leaves, and what it raises.
unfoldable pub run_contamination_check : Option ℕ → Attempt → Tables → Tables × Option JobError
unfolding mark_version_error
run_contamination_check version_id (committed run) db = (run db, none)
run_contamination_check version_id (raised transient) db = (db, some transient)
run_contamination_check version_id (raised soft_time_limit) db =
    (mark_if_named version_id db, some soft_time_limit)
run_contamination_check version_id (raised permanent) db =
    (mark_if_named version_id db, some permanent)

-- The task is retried only after a transient error. That the broker also delivers it again when its worker
-- is lost (acks_late, reject_on_worker_lost) is left out.
unfoldable pub deliver : Option ℕ → List Attempt → Tables → Tables × Option JobError
unfolding run_contamination_check
deliver version_id [] db = (db, some transient)
deliver version_id (raised transient ∷ attempts) db = deliver version_id attempts db
deliver version_id (committed run ∷ attempts) db =
    run_contamination_check version_id (committed run) db
deliver version_id (raised soft_time_limit ∷ attempts) db =
    run_contamination_check version_id (raised soft_time_limit) db
deliver version_id (raised permanent ∷ attempts) db =
    run_contamination_check version_id (raised permanent) db

abbrev pub IsTransient : Attempt → Type 0
IsTransient a = a ≡ raised transient

-- A failure that is not transient is raised again, leaves the version `error`, and no other version
-- with another status, however many transient errors came before it.
pub deliver_failed :
    (retries : List Attempt) (e : JobError) (rest : List Attempt) (version : Version) (other : ℕ)
    (db : Tables)
    → All IsTransient retries
    → e ≢ transient
    → select (of_version version.id) db.versions ≡ some version
    → (version.id == other) ≡ false
    → let (db', raised_error) = deliver (some version.id) (retries ++ raised e ∷ rest) db in
      (raised_error ≡ some e)
      × (select (of_version version.id) db'.versions
          ≡ some (record version { contamination_status = error }))
      × (select (of_version other) db'.versions ≡ select (of_version other) db.versions)
      × (db'.reports ≡ db.reports)
unfolding deliver
deliver_failed [] transient rest version other db ts ne found differs = absurd (ne refl)
deliver_failed [] soft_time_limit rest version other db ts ne found differs = (
  refl,
  set_status-select version.id error db.versions version found,
  set_status-other other version.id error db.versions differs,
  refl,
)
deliver_failed [] permanent rest version other db ts ne found differs = (
  refl,
  set_status-select version.id error db.versions version found,
  set_status-other other version.id error db.versions differs,
  refl,
)
deliver_failed (raised transient ∷ retries) e rest version other db ts ne found differs =
    deliver_failed retries e rest version other db ts.1 ne found differs
deliver_failed (committed run ∷ retries) e rest version other db ts ne found differs = cc
deliver_failed (raised soft_time_limit ∷ retries) e rest version other db ts ne found differs = cc
deliver_failed (raised permanent ∷ retries) e rest version other db ts ne found differs = cc

-- If every delivery meets a transient error, the last one included, the tables never change: a version
-- that was pending stays pending.
pub deliver_exhausted :
    (version_id : Option ℕ) (attempts : List Attempt) (db : Tables)
    → All IsTransient attempts
    → deliver version_id attempts db ≡ (db, some transient)
unfolding deliver
deliver_exhausted version_id [] db ts = refl
deliver_exhausted version_id (raised transient ∷ attempts) db ts =
    deliver_exhausted version_id attempts db ts.1
deliver_exhausted version_id (committed run ∷ attempts) db ts = cc
deliver_exhausted version_id (raised soft_time_limit ∷ attempts) db ts = cc
deliver_exhausted version_id (raised permanent ∷ attempts) db ts = cc
