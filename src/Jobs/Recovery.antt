-- ===== src/Jobs/Recovery.antt =====
-- Slots: the jobs that count against an account's ceiling, and how they are given back.
use autonomous_ai_analyst.Base.{
  ℕ, ◌+◌, String, List, [], ◌∷◌, map, Bool, false, ◌&&◌, Option, some, ◌==◌, ◌≡◌, refl, arith,
  Bool-cases, inl, inr, if◌then◌else◌, count,
}
use autonomous_ai_analyst.Common.{Json}
use autonomous_ai_analyst.Table.{get, update}
use autonomous_ai_analyst.Jobs.Records.{
  JobRecord, job_key, finished, complete_job, broken, fail_job, is_active, interrupt_active,
  recover_interrupted_jobs, count_active_jobs,
}

abbrev holds_slot : String → JobRecord → Bool
holds_slot owner j = (j.owner_id == owner) && is_active j.state

abbrev pub slot : String → JobRecord → ℕ
slot owner j = if holds_slot owner j then 1 else 0

update_slots :
    (owner id : String) (f : JobRecord → JobRecord) (jobs : List JobRecord) (j : JobRecord)
    → ((i : JobRecord) → holds_slot owner (f i) ≡ false)
    → get job_key id jobs ≡ some j
    → count (holds_slot owner) (update job_key id f jobs) + slot owner j
      ≡ count (holds_slot owner) jobs
update_slots owner id f [] j h e = cc
update_slots owner id f (i ∷ jobs) j h e = ground (arith, h i, update_slots owner id f jobs j h)

finished-slot :
    (owner : String) (r : Json) (k : Option String) (now : ℕ) (i : JobRecord)
    → holds_slot owner (finished r k now i) ≡ false
finished-slot owner r k now i = ground arith

broken-slot :
    (owner m k s : String) (now : ℕ) (i : JobRecord) → holds_slot owner (broken m k s now i) ≡ false
broken-slot owner m k s now i = ground arith

-- A job that completes or fails gives back exactly the slot it held: for every owner the number of
-- active jobs falls by one if the job was active and that owner's, and else stays.
pub end_slots :
    (owner id : String) (jobs : List JobRecord) (j : JobRecord) (r : Json) (k : Option String)
    (m kind s : String) (now : ℕ)
    → get job_key id jobs ≡ some j
    → (count_active_jobs owner (complete_job id r k now jobs) + slot owner j
        ≡ count_active_jobs owner jobs)
      × (count_active_jobs owner (fail_job id m kind s now jobs) + slot owner j
          ≡ count_active_jobs owner jobs)
unfolding count_active_jobs complete_job fail_job
end_slots owner id jobs j r k m kind s now e = (
  update_slots owner id (finished r k now) jobs j (finished-slot owner r k now) e,
  update_slots owner id (broken m kind s now) jobs j (broken-slot owner m kind s now) e,
)

recover_none :
    (owner : String) (now : ℕ) (jobs : List JobRecord)
    → count (holds_slot owner) (map (interrupt_active now) jobs) ≡ 0
recover_none owner now [] = refl
recover_none owner now (j ∷ jobs) = ground (arith, recover_none owner now jobs)

recover_done :
    (now : ℕ) (jobs : List JobRecord)
    → count (λ j. is_active j.state) (map (interrupt_active now) jobs) ≡ 0
recover_done now [] = refl
recover_done now (j ∷ jobs) = ground (arith, recover_done now jobs)

interrupt_active_idem :
    (now later : ℕ) (j : JobRecord)
    → interrupt_active later (interrupt_active now j) ≡ interrupt_active now j
interrupt_active_idem now later j = elim (Bool-cases (is_active j.state)) [
  | inl active ↦ rw active refl
  | inr done ↦ rw (done, done) refl
]

recover_idem :
    (now later : ℕ) (jobs : List JobRecord)
    → map (interrupt_active later) (map (interrupt_active now) jobs)
      ≡ map (interrupt_active now) jobs
recover_idem now later [] = refl
recover_idem now later (j ∷ jobs) =
    cc (interrupt_active_idem now later j, recover_idem now later jobs)

-- After a recovery no job counts against anybody's ceiling, and a second recovery at any later
-- moment marks no job and changes no row.
pub recover-slots :
    (owner : String) (now later : ℕ) (jobs : List JobRecord)
    → let after = (recover_interrupted_jobs now jobs).0 in
      (count_active_jobs owner after ≡ 0) × (recover_interrupted_jobs later after ≡ (after, 0))
unfolding count_active_jobs recover_interrupted_jobs
recover-slots owner now later jobs =
    (recover_none owner now jobs, cc (recover_idem now later jobs, recover_done now jobs))
