-- ===== src/Limits/Burst.antt =====
-- How many jobs an account can hold: the guards at the door of `upload_dataset`
-- (backend/routes/upload.py) and the moves of the job table (backend/db.py), as a step relation. An
-- upload is let through in one move and has its job in a later one, with others in between.
use autonomous_ai_analyst.Base.{
  ℕ, ◌+◌, ap, if◌then◌else◌, ◌≤◌, ◌<◌, String, List, [], ◌∷◌, ◌++◌, true, Option, some, ◌==◌, ◌≡◌,
  ◌⊎◌, subst, inl, inr, arith, ==→eq, Bool-cases, Option-cases, count,
}
use autonomous_ai_analyst.Common.{Principal, Json}
use autonomous_ai_analyst.Settings.{Settings}
use autonomous_ai_analyst.Http.{server_error, HttpError, ok, raised}
use autonomous_ai_analyst.Jobs.{
  JobRecord, job_key, new_job, is_active, create_job, append_step, complete_job, fail_job,
  recover_interrupted_jobs, purge_old_jobs, count_active_jobs,
}
use autonomous_ai_analyst.Table.{get}
use autonomous_ai_analyst.Database.{Database, Call, pure, gets, or_raise, ◌>>=◌, ◌>>◌, modify}
use autonomous_ai_analyst.Limits.Ceilings.{
  check_storage_quota-guards, check_job_concurrency-guards, HasRoom,
}
use autonomous_ai_analyst.Limits.Holding.{
  holds, add-holds, add-holds_other, steps-holds, completes-holds, fails-holds, recovers-holds,
  purges-holds,
}
use autonomous_ai_analyst.Limits.Checks.{check_storage_quota, check_job_concurrency}

-- The door of `upload_dataset`: the two guards, before a byte of the file is read.
unfoldable pub let_through : Settings → Principal → ℕ → Call (Unit {0})
let_through settings p now =
    check_storage_quota settings p now >> check_job_concurrency settings p now

-- The job of an upload whose file has been read and passes its checks. `job_id` is the UUID drawn.
unfoldable pub enqueue : String → String → ℕ → Call String
enqueue job_id user_id now =
    (gets λ db. create_job job_id "Upload received" user_id now db.jobs)
    >>= (λ jobs. or_raise jobs server_error)
    >>= (λ jobs. modify λ db. record db { jobs = jobs })
    >> pure job_id

-- The database, and for each upload that has been let through and whose file is being read
-- (`await read_upload_to_temp`) the account that sends it.
pub record Intake : Type 0 where
  pub db : Database
  pub uploads : List String

abbrev pub with_jobs : List JobRecord → Intake → Intake
with_jobs jobs s = record s { db = record s.db { jobs = jobs } }

abbrev pub sent_by : String → List String → ℕ
sent_by owner = count (λ user_id. user_id == owner)

-- One account has at most `burst` uploads under way. A worker reports a step of a job that is queued
-- or running.
pub data Move (settings : Settings) (burst : ℕ) (s : Intake) : Intake → Type 0 where
  admits :
      (p : Principal) (now : ℕ)
      → (let_through settings p now s.db).0 ≡ ok tt
      → sent_by p.user_id s.uploads < burst
      → Move settings burst s
          (record { db = (let_through settings p now s.db).1; uploads = p.user_id ∷ s.uploads })
  refuses :
      (p : Principal) (now : ℕ) (e : HttpError)
      → (let_through settings p now s.db).0 ≡ raised e
      → Move settings burst s (record s { db = (let_through settings p now s.db).1 })
  drops :
      (user_id : String) (before after : List String)
      → s.uploads ≡ before ++ user_id ∷ after
      → Move settings burst s (record s { uploads = before ++ after })
  enqueues :
      (job_id user_id : String) (now : ℕ) (before after : List String)
      → s.uploads ≡ before ++ user_id ∷ after
      → Move settings burst s
          (record { db = (enqueue job_id user_id now s.db).1; uploads = before ++ after })
  steps :
      (job_id step : String) (progress now : ℕ) (j : JobRecord)
      → get job_key job_id s.db.jobs ≡ some j
      → is_active j.state ≡ true
      → Move settings burst s (with_jobs (append_step job_id step progress now s.db.jobs) s)
  completes :
      (job_id : String) (result : Json) (run_key : Option String) (now : ℕ)
      → Move settings burst s (with_jobs (complete_job job_id result run_key now s.db.jobs) s)
  fails :
      (job_id error kind step : String) (now : ℕ)
      → Move settings burst s (with_jobs (fail_job job_id error kind step now s.db.jobs) s)
  recovers :
      (now : ℕ) → Move settings burst s (with_jobs (recover_interrupted_jobs now s.db.jobs).0 s)
  purges :
      (max_age_hours now : ℕ)
      → Move settings burst s (with_jobs (purge_old_jobs max_age_hours now s.db.jobs).0 s)

pub data Reach (settings : Settings) (burst : ℕ) (start : Intake) : Intake → Type 0 where
  here : Reach settings burst start start
  later :
      {s s' : Intake}
      → Reach settings burst start s
      → Move settings burst s s'
      → Reach settings burst start s'

sent_by-part :
    (owner user_id : String) (before after : List String)
    → sent_by owner (before ++ user_id ∷ after)
      ≡ (if user_id == owner then 1 else 0) + sent_by owner (before ++ after)
sent_by-part owner user_id [] after = ground (arith)
sent_by-part owner user_id (x ∷ before) after =
    ground (arith, sent_by-part owner user_id before after)

-- The door writes no job, and lets an upload through below the ceiling only.
let_through-jobs :
    (settings : Settings) (p : Principal) (now : ℕ) (db : Database)
    → settings.auth_enabled ≡ true
    → ((let_through settings p now db).1.jobs ≡ db.jobs)
      × ((let_through settings p now db).0 ≡ ok tt
          → HasRoom settings.principal_max_concurrent_jobs (count_active_jobs p.user_id db.jobs))
unfolding let_through
let_through-jobs settings p now db on = elim (check_storage_quota-guards settings p now db on) [
  | inr (e, _, refused, left) ↦ (ground (arith), λ through. absurd (ground (arith)))
  | inl (through, _) ↦ elim (check_job_concurrency-guards settings p now db on) [
    | inr (e, _, refused, left) ↦ (ground (arith), λ passed. absurd (ground (arith)))
    | inl (passed, room) ↦ (ground (arith), λ _. room)
  ]
]

-- What an upload that has been read does to the job table: one new job, or none.
enqueue-jobs :
    (job_id user_id : String) (now : ℕ) (db : Database)
    → ((enqueue job_id user_id now db).1.jobs ≡ db.jobs)
      ⊎ ((enqueue job_id user_id now db).1.jobs
          ≡ db.jobs ++ new_job job_id "Upload received" user_id now ∷ [])
unfolding enqueue create_job
enqueue-jobs job_id user_id now db = elim (Option-cases (get job_key job_id db.jobs)) [
  | inl free ↦ inr (ground (arith))
  | inr (j, taken) ↦ inl (ground (arith))
]

-- The jobs of an account, and its uploads that will be jobs.
abbrev pub load : String → Intake → ℕ
load owner s = count_active_jobs owner s.db.jobs + sent_by owner s.uploads

admits-bounded :
    (settings : Settings) (burst : ℕ) (owner : String) (s : Intake) (p : Principal) (now : ℕ)
    → settings.auth_enabled ≡ true
    → 1 ≤ settings.principal_max_concurrent_jobs
    → (let_through settings p now s.db).0 ≡ ok tt
    → sent_by p.user_id s.uploads < burst
    → load owner s < settings.principal_max_concurrent_jobs + burst
    → load owner
        (record { db = (let_through settings p now s.db).1; uploads = p.user_id ∷ s.uploads })
      < settings.principal_max_concurrent_jobs + burst
admits-bounded settings burst owner s p now on on' through few h =
    let (same, room) = let_through-jobs settings p now s.db on in
    rw same (elim (Bool-cases (p.user_id == owner)) [
      | inr other ↦ rw other h
      | inl own ↦
          let few' = subst (λ o. sent_by o s.uploads < burst) (==→eq p.user_id owner own) few in
          elim (room through) [
            | inl off ↦ absurd (omega (arith, off, on'))
            | inr below ↦
                let b =
                  subst
                    (λ o. count_active_jobs o s.db.jobs < settings.principal_max_concurrent_jobs)
                    (==→eq p.user_id owner own) below in
                rw own (omega (arith, b, few'))
          ]
    ])

enqueues-load :
    (owner job_id user_id : String) (now : ℕ) (db : Database)
    → count_active_jobs owner (enqueue job_id user_id now db).1.jobs
      ≤ (if user_id == owner then 1 else 0) + count_active_jobs owner db.jobs
unfolding count_active_jobs holds
enqueues-load owner job_id user_id now db =
    let new = new_job job_id "Upload received" user_id now in
    elim (enqueue-jobs job_id user_id now db) [
      | inl same ↦ rw same (omega (arith))
      | inr more ↦ rw more (elim (Bool-cases (user_id == owner)) [
        | inr other ↦ rw other (omega (arith, add-holds_other owner new db.jobs other))
        | inl own ↦ rw own (omega (arith, add-holds owner new db.jobs))
      ])
    ]

Move-bounded :
    (settings : Settings) (burst : ℕ) (owner : String) (s s' : Intake)
    → settings.auth_enabled ≡ true
    → 1 ≤ settings.principal_max_concurrent_jobs
    → Move settings burst s s'
    → load owner s < settings.principal_max_concurrent_jobs + burst
    → load owner s' < settings.principal_max_concurrent_jobs + burst
unfolding count_active_jobs holds
Move-bounded settings burst owner s _ on on' (admits p now through few) h =
    admits-bounded settings burst owner s p now on on' through few h
Move-bounded settings burst owner s _ on on' (refuses p now e refused) h =
    rw (let_through-jobs settings p now s.db on).0 h
Move-bounded settings burst owner s _ on on' (drops user_id before after there) h =
    omega (arith, h, ap (sent_by owner) there, sent_by-part owner user_id before after)
Move-bounded settings burst owner s _ on on' (enqueues job_id user_id now before after there) h =
    omega (
      arith,
      h,
      ap (sent_by owner) there,
      sent_by-part owner user_id before after,
      enqueues-load owner job_id user_id now s.db,
    )
Move-bounded settings burst owner s _ on on' (steps job_id step progress now j e a) h =
    rw (steps-holds owner job_id step progress now s.db.jobs {j = j} e a) h
Move-bounded settings burst owner s _ on on' (completes job_id result run_key now) h =
    omega (arith, h, completes-holds owner job_id result run_key now s.db.jobs)
Move-bounded settings burst owner s _ on on' (fails job_id error kind step now) h =
    omega (arith, h, fails-holds owner job_id error kind step now s.db.jobs)
Move-bounded settings burst owner s _ on on' (recovers now) h =
    omega (arith, h, recovers-holds owner now s.db.jobs)
Move-bounded settings burst owner s _ on on' (purges max_age_hours now) h =
    omega (arith, h, purges-holds owner max_age_hours now s.db.jobs)

Reach-load :
    (settings : Settings) (burst : ℕ) (owner : String) (start s : Intake)
    → settings.auth_enabled ≡ true
    → 1 ≤ settings.principal_max_concurrent_jobs
    → load owner start < settings.principal_max_concurrent_jobs + burst
    → Reach settings burst start s
    → load owner s < settings.principal_max_concurrent_jobs + burst
Reach-load settings burst owner start _ on on' h here = h
Reach-load settings burst owner start s on on' h (later {s = before} r m) =
    Move-bounded settings burst owner before s on on' m
      (Reach-load settings burst owner start before on on' h r)

-- With auth on and a ceiling on jobs, where an account has at most `burst` uploads under way at once,
-- and starts with none and within the ceiling: no interleaving of the door of uploads, of the end of
-- their reading and of moves of the job table, in which a worker reports steps of active jobs only,
-- brings its active jobs above the ceiling and `burst` less one. Uploads one after the other, a burst
-- of 1, keep it within the ceiling.
pub Reach-bounded :
    (settings : Settings) (burst : ℕ) (owner : String) (start s : Intake)
    → settings.auth_enabled ≡ true
    → 1 ≤ settings.principal_max_concurrent_jobs
    → 1 ≤ burst
    → count_active_jobs owner start.db.jobs ≤ settings.principal_max_concurrent_jobs
    → sent_by owner start.uploads ≡ 0
    → Reach settings burst start s
    → count_active_jobs owner s.db.jobs < settings.principal_max_concurrent_jobs + burst
Reach-bounded settings burst owner start s on on' one within none_sent r = omega (
  arith,
  Reach-load settings burst owner start s on on' (omega (arith, one, within, none_sent)) r,
)
