-- ===== src/Reports/Drain.antt =====
-- A cron tick: `run_due` hands the due schedules to the queue, and a worker takes them one after the
-- other (backend/report_schedule.py).
use autonomous_ai_analyst.Base.{
  ℕ, suc, ◌+◌, ◌≤◌, String, List, [], ◌∷◌, Bool, false, none, some, ◌≡◌, ◌⊎◌, refl, sym, subst, ap,
  inl, inr, arith, Bool-cases, Option-cases, length, length-take, take, map, All,
}
use autonomous_ai_analyst.Settings.{Settings}
use autonomous_ai_analyst.Schedules.{
  ReportScheduleRecord, schedule_key, ran, is_due, get_report_schedule, due_report_schedules,
}
use autonomous_ai_analyst.Table.{get, update, All-get, All-update}
use autonomous_ai_analyst.Database.{Database}
use autonomous_ai_analyst.Reports.Calls.{
  interval_of, World, process_due_schedule, process_all, run_due,
}
use autonomous_ai_analyst.Reports.Ticks.{process_due_schedule-advances, interval-positive}

-- The schedule with this id is there and due.
abbrev pub due_at : ℕ → String → List ReportScheduleRecord → Bool
due_at now schedule_id schedules = elim (get schedule_key schedule_id schedules) [
  | none ↦ false
  | some s ↦ is_due now s
]

-- The schedule's interval is one of those that the program knows.
abbrev pub HasInterval : ReportScheduleRecord → Type 0
HasInterval s = (span : ℕ) × (interval_of s.interval ≡ some span)

update-due_self :
    (now next : ℕ) (id status : String) (schedules : List ReportScheduleRecord)
    → suc now ≤ next
    → due_at now id (update schedule_key id (ran next status now) schedules) ≡ false
update-due_self now next id status [] h = refl
update-due_self now next id status (s ∷ schedules) h =
    ground (arith, update-due_self now next id status schedules h)

update-due_other :
    (now next : ℕ) (id status other : String) (schedules : List ReportScheduleRecord)
    → suc now ≤ next
    → due_at now other schedules ≡ false
    → due_at now other (update schedule_key id (ran next status now) schedules) ≡ false
update-due_other now next id status other [] h d = refl
update-due_other now next id status other (s ∷ schedules) h d =
    ground (arith, update-due_other now next id status other schedules h)

module _ (settings : Settings) (world : World) (now : ℕ) where
  abbrev after_tick : String → Database → List ReportScheduleRecord
  after_tick id db = (process_due_schedule settings world id now db).1.schedules

  -- A tick leaves the schedules alone if its schedule is not due, or moves its next run into the future.
  tick-cases :
      (id : String) (db : Database)
      → All HasInterval db.schedules
      → ((after_tick id db ≡ db.schedules) × (due_at now id db.schedules ≡ false))
        ⊎ ((next : ℕ) × (status : String) × (after_tick id db
              ≡ update schedule_key id (ran next status now) db.schedules)
            × (suc now ≤ next))
  unfolding process_due_schedule get_report_schedule
  tick-cases id db known = elim (Option-cases (get schedule_key id db.schedules)) [
    | inl missing ↦ inl (ground (arith), ground (arith))
    | inr (s, found) ↦ elim (Bool-cases s.active) [
      | inr asleep ↦ inl (ground (arith), ground (arith))
      | inl active ↦
          let (span, at) = All-get schedule_key HasInterval id db.schedules {r = s} known found in
          let (status, _, written, _, _) =
            process_due_schedule-advances settings world id now span db {s = s} found active at in
          inr (
            now + span,
            status,
            written,
            omega (arith, interval-positive s.interval {span = span} at),
          )
    ]
  ]

  tick-HasInterval :
      (id : String) (db : Database)
      → All HasInterval db.schedules
      → All HasInterval (after_tick id db)
  tick-HasInterval id db known = elim (tick-cases id db known) [
    | inl (same, _) ↦ subst (All HasInterval) (sym same) known
    | inr (next, status, written, _) ↦
        subst (All HasInterval) (sym written) (
          All-update schedule_key HasInterval id (ran next status now) db.schedules (λ s h. h)
            known)
  ]

  tick-due_self :
      (id : String) (db : Database)
      → All HasInterval db.schedules
      → due_at now id (after_tick id db) ≡ false
  tick-due_self id db known = elim (tick-cases id db known) [
    | inl (same, calm) ↦ subst (λ ss. due_at now id ss ≡ false) (sym same) calm
    | inr (next, status, written, h) ↦
        subst (λ ss. due_at now id ss ≡ false) (sym written)
          (update-due_self now next id status db.schedules h)
  ]

  tick-due_other :
      (id other : String) (db : Database)
      → All HasInterval db.schedules
      → due_at now other db.schedules ≡ false
      → due_at now other (after_tick id db) ≡ false
  tick-due_other id other db known d = elim (tick-cases id db known) [
    | inl (same, _) ↦ subst (λ ss. due_at now other ss ≡ false) (sym same) d
    | inr (next, status, written, h) ↦
        subst (λ ss. due_at now other ss ≡ false) (sym written)
          (update-due_other now next id status other db.schedules h d)
  ]

  abbrev after_all : List String → Database → List ReportScheduleRecord
  after_all ids db = (process_all settings world ids now db).schedules

  worked-due_other :
      (ids : List String) (other : String) (db : Database)
      → All HasInterval db.schedules
      → due_at now other db.schedules ≡ false
      → due_at now other (after_all ids db) ≡ false
  unfolding process_all
  worked-due_other [] other db known d = d
  worked-due_other (id ∷ ids) other db known d =
      worked-due_other ids other (process_due_schedule settings world id now db).1
        (tick-HasInterval id db known) (tick-due_other id other db known d)

  worked-due_self :
      (ids : List String) (db : Database)
      → All HasInterval db.schedules
      → All (λ id. due_at now id (after_all ids db) ≡ false) ids
  unfolding process_all
  worked-due_self [] db known = tt
  worked-due_self (id ∷ ids) db known =
      let db' = (process_due_schedule settings world id now db).1 in
      (
        worked-due_other ids id db' (tick-HasInterval id db known) (tick-due_self id db known),
        worked-due_self ids db' (tick-HasInterval id db known),
      )

length-map : {A B : Type 0} (f : A → B) (xs : List A) → length (map f xs) ≡ length xs
length-map f [] = refl
length-map f (x ∷ xs) = ap suc (length-map f xs)

-- If every schedule has a known interval, a cron tick hands out at most the configured number of
-- schedules, and once a worker has taken them, whatever becomes of each, none of them is due.
pub run_due-drains :
    (settings : Settings) (world : World) (now : ℕ) (db : Database)
    → All HasInterval db.schedules
    → (length (run_due settings now db) ≤ settings.report_schedule_max_due_per_run)
      × All
          (λ id.
            due_at now id (process_all settings world (run_due settings now db) now db).schedules
            ≡ false)
          (run_due settings now db)
unfolding run_due
run_due-drains settings world now db known =
    let due = due_report_schedules now db.schedules in
    let taken = take settings.report_schedule_max_due_per_run due in
    (
      omega (
        arith,
        length-map schedule_key taken,
        length-take settings.report_schedule_max_due_per_run due,
      ),
      worked-due_self settings world now (map schedule_key taken) db known,
    )
