-- ===== src/Jobs/History.antt =====
-- Histories of a job table: any sequence of the helpers' calls, each of which takes effect or
-- leaves the table alone. What holds of the table's rows after every history.
use autonomous_ai_analyst.Base.{
  ℕ, String, List, [], ◌∷◌, ◌++◌, map, Option, none, some, ◌≡◌, refl, length, All, arith,
  Bool-cases, All-append, All-select, inl, inr,
}
use autonomous_ai_analyst.Common.{Json}
use autonomous_ai_analyst.Table.{
  get, IsKeyed, add-eq, add-IsKeyed, update-IsKeyed, delete_where-IsKeyed, All-update,
}
use autonomous_ai_analyst.Jobs.Records.{
  JobState, queued, running, completed, failed, LogEntry, JobRecord, job_key, new_job, create_job,
  stepped, append_step, finished, complete_job, broken, fail_job, is_active, interrupt_active,
  recover_interrupted_jobs, purge_old_jobs,
}

pub data Call : Type 0 where
  creates : String → String → String → Call
  steps : String → String → ℕ → Call
  completes : String → Json → Option String → Call
  fails : String → String → String → String → Call
  recovers : Call
  purges : ℕ → Call

abbrev pub or_same : List JobRecord → Option (List JobRecord) → List JobRecord
or_same jobs none = jobs
or_same jobs (some jobs') = jobs'

-- One call at one moment.
unfoldable pub apply : ℕ × Call → List JobRecord → List JobRecord
apply (now, creates job_id first_step owner_id) jobs =
    or_same jobs (create_job job_id first_step owner_id now jobs)
apply (now, steps job_id step progress) jobs = append_step job_id step progress now jobs
apply (now, completes job_id result run_key) jobs = complete_job job_id result run_key now jobs
apply (now, fails job_id error kind step) jobs = fail_job job_id error kind step now jobs
apply (now, recovers) jobs = (recover_interrupted_jobs now jobs).0
apply (now, purges max_age_hours) jobs = (purge_old_jobs max_age_hours now jobs).0

unfoldable pub run : List (ℕ × Call) → List JobRecord → List JobRecord
run [] jobs = jobs
run (c ∷ cs) jobs = run cs (apply c jobs)

-- The log ends with this step at this progress.
abbrev pub EndsWith : String → ℕ → List LogEntry → Type 0
EndsWith step progress [] = ⊥
EndsWith step progress (e ∷ []) = (e.step ≡ step) × (e.progress ≡ progress)
EndsWith step progress (e ∷ f ∷ log) = EndsWith step progress (f ∷ log)

-- What the state column promises about the others.
abbrev pub Promises : JobState → JobRecord → Type 0
Promises queued j =
    (j.result ≡ none) × (j.error ≡ none) × (j.progress ≡ 0) × (length j.status_log ≡ 1)
Promises running j = EndsWith j.current_step j.progress j.status_log
Promises completed j =
    (j.progress ≡ 100)
    × (j.current_step ≡ "Completed")
    × EndsWith "Completed" 100 j.status_log
    × ((r : Json) × (j.result ≡ some r))
Promises failed j = ((e : String) × (j.error ≡ some e)) × ((k : String) × (j.error_kind ≡ some k))

abbrev pub IsWellFormed : JobRecord → Type 0
IsWellFormed j = Promises j.state j

pub record Inv (jobs : List JobRecord) : Type 0 where
  pub keyed : IsKeyed job_key jobs
  pub formed : All IsWellFormed jobs

EndsWith-append : (log : List LogEntry) (e : LogEntry) → EndsWith e.step e.progress (log ++ e ∷ [])
EndsWith-append [] e = (refl, refl)
EndsWith-append (f ∷ []) e = (refl, refl)
EndsWith-append (f ∷ g ∷ log) e = EndsWith-append (g ∷ log) e

get-map_interrupt :
    (k : String) (now : ℕ) (jobs : List JobRecord)
    → get job_key k jobs ≡ none
    → get job_key k (map (interrupt_active now) jobs) ≡ none
get-map_interrupt k now [] e = refl
get-map_interrupt k now (j ∷ jobs) e = ground (arith, get-map_interrupt k now jobs)

recover-IsKeyed :
    (now : ℕ) (jobs : List JobRecord)
    → IsKeyed job_key jobs
    → IsKeyed job_key (map (interrupt_active now) jobs)
recover-IsKeyed now [] u = tt
recover-IsKeyed now (j ∷ jobs) u =
    ground (arith, get-map_interrupt j.job_id now jobs, recover-IsKeyed now jobs)

interrupt-IsWellFormed :
    (now : ℕ) (j : JobRecord) → IsWellFormed j → IsWellFormed (interrupt_active now j)
interrupt-IsWellFormed now j h = elim (Bool-cases (is_active j.state)) [
  | inl active ↦ rw active ((_, refl), (_, refl))
  | inr done ↦ rw done h
]

recover-IsWellFormed :
    (now : ℕ) (jobs : List JobRecord)
    → All IsWellFormed jobs
    → All IsWellFormed (map (interrupt_active now) jobs)
recover-IsWellFormed now [] a = tt
recover-IsWellFormed now (j ∷ jobs) a =
    (interrupt-IsWellFormed now j a.0, recover-IsWellFormed now jobs a.1)

or_same-Inv :
    (jobs : List JobRecord) (o : Option (List JobRecord))
    → Inv jobs
    → ((u : List JobRecord) → o ≡ some u → Inv u)
    → Inv (or_same jobs o)
or_same-Inv jobs none v h = v
or_same-Inv jobs (some u) v h = h u refl

create-Inv :
    (id step owner : String) (now : ℕ) (jobs : List JobRecord)
    → Inv jobs
    → Inv (or_same jobs (create_job id step owner now jobs))
unfolding create_job
create-Inv id step owner now jobs v = or_same-Inv jobs _ v λ u e.
    let j : JobRecord = new_job id step owner now in
    record {
      keyed = add-IsKeyed job_key j jobs v.keyed e;
      formed =
          rw (add-eq job_key j jobs e)
            (All-append IsWellFormed jobs (j ∷ []) v.formed ((refl, refl, refl, refl), tt));
    }

apply-Inv : (c : ℕ × Call) (jobs : List JobRecord) → Inv jobs → Inv (apply c jobs)
unfolding apply append_step complete_job fail_job recover_interrupted_jobs purge_old_jobs
apply-Inv (now, creates id step owner) jobs v = create-Inv id step owner now jobs v
apply-Inv (now, steps id step progress) jobs v = record {
  keyed = update-IsKeyed job_key id (stepped step progress now) jobs (λ j. refl) v.keyed;
  formed =
      All-update job_key IsWellFormed id (stepped step progress now) jobs
        (λ j h. EndsWith-append j.status_log _) v.formed;
}
apply-Inv (now, completes id result run_key) jobs v = record {
  keyed = update-IsKeyed job_key id (finished result run_key now) jobs (λ j. refl) v.keyed;
  formed =
      All-update job_key IsWellFormed id (finished result run_key now) jobs
        (λ j h. (refl, refl, EndsWith-append j.status_log _, (result, refl))) v.formed;
}
apply-Inv (now, fails id error kind step) jobs v = record {
  keyed = update-IsKeyed job_key id (broken error kind step now) jobs (λ j. refl) v.keyed;
  formed =
      All-update job_key IsWellFormed id (broken error kind step now) jobs
        (λ j h. ((error, refl), (kind, refl))) v.formed;
}
apply-Inv (now, recovers) jobs v = record {
  keyed = recover-IsKeyed now jobs v.keyed;
  formed = recover-IsWellFormed now jobs v.formed;
}
apply-Inv (now, purges max_age) jobs v = record {
  keyed = delete_where-IsKeyed job_key _ jobs v.keyed;
  formed = All-select IsWellFormed _ jobs v.formed;
}

-- After any sequence of calls, from a table that is so: ids are unique, and each job's columns are
-- what its state promises. A queued job has no result, no error, and one log entry; a running
-- job's current step and progress are those of its last log entry; a completed job has progress
-- 100, a result, and a log that ends with "Completed"; a failed job has an error and its kind.
pub run-Inv : (cs : List (ℕ × Call)) (jobs : List JobRecord) → Inv jobs → Inv (run cs jobs)
unfolding run
run-Inv [] jobs v = v
run-Inv (c ∷ cs) jobs v = run-Inv cs (apply c jobs) (apply-Inv c jobs v)
