-- ===== src/Jobs/Ownership.antt =====
-- Who sees a job, and what no call takes away from it.
use autonomous_ai_analyst.Base.{
  ℕ, String, List, [], ◌∷◌, ◌++◌, map, Option, none, some, ◌==◌, ◌≡◌, refl, sym, ◌∙◌, All, arith,
  Bool-cases, inl, inr, eq_iff, ==→eq, ◌↔◌,
}
use autonomous_ai_analyst.Owned.{if_owned}
use mathlib.Core.Option
use mathlib.Core.Option.{some-injective}
use mathlib.Core.List.{append-nil, append_assoc}
use autonomous_ai_analyst.Table.{get, update, add, get-update_self, get-update_ne, get-append}
use autonomous_ai_analyst.Jobs.Records.{
  JobRecord, JobStatus, LogEntry, to_status, job_key, new_job, create_job, get_job, job_owner,
  stepped, append_step, finished, complete_job, broken, fail_job, is_active, interrupt_active,
  recover_interrupted_jobs,
}
use autonomous_ai_analyst.Jobs.History.{
  Call, creates, steps, completes, fails, recovers, purges, apply, run, or_same,
}

status_of_owned :
    (owner : String) (o : Option JobRecord) (s : JobStatus)
    → (Option.map to_status (if_owned job_owner (some owner) o) ≡ some s)
      ↔ ((j : JobRecord) × (o ≡ some j) × (j.owner_id ≡ owner) × (s ≡ to_status j))
status_of_owned owner none s = (λ e. cc, λ e. cc (e.1))
status_of_owned owner (some j) s = elim (Bool-cases (j.owner_id == owner)) [
  | inl own ↦
      rw own
        (λ e. (j, refl, ==→eq j.owner_id owner own, sym (some-injective _ _ e)), λ e. cc (e.1, e.3))
  | inr other ↦ rw other (λ e. cc, λ e. ground (arith, eq_iff j.owner_id owner))
]

-- For an owner, `get_job` returns a status exactly if the id is that of a job of this owner, and
-- then this job's status: the job of another owner is answered like an id that is not there.
pub get_job-owner :
    (id owner : String) (jobs : List JobRecord) (s : JobStatus)
    → (get_job id (some owner) jobs ≡ some s) ↔ (
        (j : JobRecord) × (get job_key id jobs ≡ some j) × (j.owner_id ≡ owner) × (s ≡ to_status j))
unfolding get_job
get_job-owner id owner jobs s = status_of_owned owner (get job_key id jobs) s

-- The later row is the same job: same owner, same time of creation, and a log that goes on from
-- the earlier one.
abbrev pub Extends : JobRecord → JobRecord → Type 0
Extends j k =
    (k.owner_id ≡ j.owner_id)
    × (k.created_at ≡ j.created_at)
    × ((more : List LogEntry) × (k.status_log ≡ j.status_log ++ more))

abbrev Keeps : String → JobRecord → List JobRecord → Type 0
Keeps id j jobs = (k : JobRecord) × (get job_key id jobs ≡ some k) × Extends j k

Extends-refl : (j : JobRecord) → Extends j j
Extends-refl j = (refl, refl, ([], sym (append-nil j.status_log)))

Extends-trans : (i j k : JobRecord) → Extends i j → Extends j k → Extends i k
Extends-trans i j k (o, c, (m, e)) (o', c', (m', e')) =
    (o' ∙ o, c' ∙ c, (m ++ m', rw (e', e) (append_assoc i.status_log m m')))

update-Keeps :
    (id k : String) (f : JobRecord → JobRecord) (jobs : List JobRecord) (j : JobRecord)
    → ((i : JobRecord) → job_key (f i) ≡ job_key i)
    → Extends j (f j)
    → get job_key id jobs ≡ some j
    → Keeps id j (update job_key k f jobs)
update-Keeps id k f jobs j fixed x e = elim (Bool-cases (k == id)) [
  | inl hit ↦ rw (==→eq k id hit) (f j, get-update_self job_key id f jobs (fixed j) e, x)
  | inr miss ↦ (j, get-update_ne job_key id k f jobs fixed miss ∙ e, Extends-refl j)
]

interrupt-Extends : (now : ℕ) (j : JobRecord) → Extends j (interrupt_active now j)
interrupt-Extends now j = elim (Bool-cases (is_active j.state)) [
  | inl active ↦ rw active (Extends-refl j)
  | inr done ↦ rw done (Extends-refl j)
]

get-recover :
    (id : String) (now : ℕ) (jobs : List JobRecord) (j : JobRecord)
    → get job_key id jobs ≡ some j
    → get job_key id (map (interrupt_active now) jobs) ≡ some (interrupt_active now j)
get-recover id now [] j e = cc
get-recover id now (i ∷ jobs) j e = ground (arith, get-recover id now jobs j)

create-Keeps :
    (id : String) (new : JobRecord) (jobs : List JobRecord) (j : JobRecord)
    → get job_key id jobs ≡ some j
    → Keeps id j (or_same jobs (add job_key new jobs))
create-Keeps id new jobs j e =
    (j, ground (arith, get-append job_key id jobs (new ∷ [])), Extends-refl j)

abbrev pub IsPurge : Call → Type 0
IsPurge (creates _ _ _) = ⊥
IsPurge (steps _ _ _) = ⊥
IsPurge (completes _ _ _) = ⊥
IsPurge (fails _ _ _ _) = ⊥
IsPurge recovers = ⊥
IsPurge (purges _) = Unit

apply-Keeps :
    (id : String) (now : ℕ) (c : Call) (jobs : List JobRecord) (j : JobRecord)
    → ¬ IsPurge c
    → get job_key id jobs ≡ some j
    → Keeps id j (apply (now, c) jobs)
unfolding apply create_job append_step complete_job fail_job recover_interrupted_jobs
apply-Keeps id now (creates i s o) jobs j h e = create-Keeps id (new_job i s o now) jobs j e
apply-Keeps id now (steps i s p) jobs j h e =
    update-Keeps id i (stepped s p now) jobs j (λ k. refl) (refl, refl, (_, refl)) e
apply-Keeps id now (completes i r k) jobs j h e =
    update-Keeps id i (finished r k now) jobs j (λ k. refl) (refl, refl, (_, refl)) e
apply-Keeps id now (fails i m k s) jobs j h e =
    update-Keeps id i (broken m k s now) jobs j (λ k. refl) (Extends-refl j) e
apply-Keeps id now recovers jobs j h e =
    (interrupt_active now j, get-recover id now jobs j e, interrupt-Extends now j)
apply-Keeps id now (purges a) jobs j h e = absurd (h tt)

-- Through any sequence of calls without a purge a job stays in the table, under its owner and its
-- time of creation, and the log entries that it had stay the beginning of its log.
pub run-Extends :
    (id : String) (cs : List (ℕ × Call)) (jobs : List JobRecord) (j : JobRecord)
    → All (λ c. ¬ IsPurge c.1) cs
    → get job_key id jobs ≡ some j
    → (k : JobRecord) × (get job_key id (run cs jobs) ≡ some k) × Extends j k
unfolding run
run-Extends id [] jobs j h e = (j, e, Extends-refl j)
run-Extends id ((now, c) ∷ cs) jobs j h e =
    let (k, ek, x) = apply-Keeps id now c jobs j h.0 e in
    let (m, em, y) = run-Extends id cs (apply (now, c) jobs) k h.1 ek in
    (m, em, Extends-trans j k m x y)
