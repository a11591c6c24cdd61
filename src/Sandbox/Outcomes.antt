-- ===== src/Sandbox/Outcomes.antt =====
-- What one execution of backend/analyst/sandbox.py starts, where, and when its result says that it
-- went well; and the readiness probe of backend/analyst/container.py.
use autonomous_ai_analyst.Base.{
  ℕ, ◌≤◌, String, List, [], ◌∷◌, true, false, Option, some, ◌≡◌, ◌↔◌, ◌⊎◌, inl, inr, refl, sym,
  subst, arith, length, Bool-cases, Option-cases, ltb,
}
use autonomous_ai_analyst.Base.Int.{ℤ}
use autonomous_ai_analyst.Text.{strip, is_empty, chars, head_chars}
use autonomous_ai_analyst.Sandbox.Runner.{Payload}
use autonomous_ai_analyst.Sandbox.Container.{
  SandboxConfig, Host, Built, argv, unavailable, build_argv, enabled, describe, SandboxUnavailable,
}
use autonomous_ai_analyst.Sandbox.Parent.{
  max_code_chars, ExecutionResult, refused, Backend, interpreter, container, SpawnPlan, Planned,
  plan, failed, Request, Child, completed, timeout_expired, start_failed, Event, spawned, killed,
  parse_response, answered, spawn_plan, run_code, no_code, code_too_long, timeout_of, request_of,
  start, kill,
}

plan_or_failed :
    (p : Planned) → ((q : SpawnPlan) × (p ≡ plan q)) ⊎ ((e : SandboxUnavailable) × (p ≡ failed e))
plan_or_failed (plan q) = inl (q, refl)
plan_or_failed (failed e) = inr (e, refl)

argv_or_unavailable :
    (b : Built)
    → ((words : List String) × (b ≡ argv words)) ⊎ ((e : SandboxUnavailable) × (b ≡ unavailable e))
argv_or_unavailable (argv words) = inl (words, refl)
argv_or_unavailable (unavailable e) = inr (e, refl)

-- The timed-out child is ended with what it was started in.
abbrev pub cleaned_up : Child → Backend → List Event
cleaned_up timeout_expired (container name _) = killed name ∷ []
cleaned_up _ _ = []

ltb→le : (a b : ℕ) → ltb a b ≡ false → b ≤ a
ltb→le a b h = ground arith

by_backend :
    (p : SpawnPlan) (r : Request) (b : Backend)
    → spawned p r ∷ kill b ≡ spawned p r ∷ cleaned_up timeout_expired b
by_backend p r interpreter = refl
by_backend p r (container name words) = refl

module _ (lower : String → String) (config : SandboxConfig) (host : Host) (name : String) where
  -- In force is what was asked for.
  abbrev pub Isolated : Option String → Backend → Type 0
  Isolated snapshot_path backend =
      (enabled lower config ≡ false × (backend ≡ interpreter))
      ⊎ (enabled lower config ≡ true
          × ((words : List String) × (build_argv config host snapshot_path name ≡ argv words)
              × (backend ≡ container name words)))

  spawn_plan-Isolated :
      (snapshot_path : Option String) (timeout : ℕ) (p : SpawnPlan)
      → spawn_plan lower config host name snapshot_path timeout ≡ plan p
      → Isolated snapshot_path p.backend
  unfolding spawn_plan
  spawn_plan-Isolated snapshot_path timeout p h = elim (Bool-cases (enabled lower config)) [
    | inr off ↦ inl (off, ground arith)
    | inl on ↦ elim (argv_or_unavailable (build_argv config host snapshot_path name)) [
      | inl (words, built) ↦ inr (on, (words, built, ground arith))
      | inr (e, missing) ↦ absurd (ground arith)
    ]
  ]

  -- The readiness probe is green exactly when an execution can be started.
  pub describe_iff :
      (snapshot_path : Option String) (timeout : ℕ)
      → ((describe lower config host).is_ok ≡ true)
        ↔ ((p : SpawnPlan) × (spawn_plan lower config host name snapshot_path timeout ≡ plan p))
  unfolding describe spawn_plan build_argv
  describe_iff snapshot_path timeout = (
    λ ready. elim (plan_or_failed (spawn_plan lower config host name snapshot_path timeout)) [
      | inl found ↦ found
      | inr (e, f) ↦ absurd (ground arith)
    ],
    λ started. let (p, e) = started in ground arith,
  )

  module _ (loads : String → Option Payload) (child : SpawnPlan → Request → Child) (duration_ms : ℕ)
      (code : String) (snapshot_path : Option String) (timeout_seconds : Option ℕ) where
    abbrev outcome : ExecutionResult × List Event
    outcome =
        run_code lower config host name loads child duration_ms code snapshot_path timeout_seconds

    abbrev timeout : ℕ
    timeout = timeout_of lower config host name loads child duration_ms timeout_seconds

    abbrev planned : Planned
    planned = spawn_plan lower config host name snapshot_path timeout

    abbrev request : SpawnPlan → Request
    request = request_of lower config host name loads child duration_ms code timeout

    run_code_blank : is_empty (strip code) ≡ true → outcome ≡ (refused code no_code 0, [])
    unfolding run_code
    run_code_blank h = rw h

    run_code_long :
        is_empty (strip code) ≡ false
        → ltb max_code_chars (length (chars code)) ≡ true
        → outcome ≡ (refused (head_chars max_code_chars code) code_too_long 0, [])
    unfolding run_code
    run_code_long h k = rw (h, k)

    run_code_start :
        is_empty (strip code) ≡ false
        → ltb max_code_chars (length (chars code)) ≡ false
        → (q : Planned) → planned ≡ q
        → outcome ≡ start lower config host name loads child duration_ms code timeout q
    unfolding run_code
    run_code_start h k q e = rw (h, k, e)

    -- Nothing is started, or one child, for code of an allowed size.
    abbrev pub Starts : ExecutionResult × List Event → Type 0
    Starts o =
        ((o.1 ≡ []) × (o.0.ok ≡ false))
        ⊎ ((p : SpawnPlan) × (r : Request) × (o.1 ≡ spawned p r ∷ cleaned_up (child p r) p.backend)
            × (r.code ≡ code)
            × (length (chars code) ≤ max_code_chars)
            × (is_empty (strip code) ≡ false)
            × Isolated snapshot_path p.backend)

    -- A result is good only if the child said so.
    abbrev pub GoodByChild : ExecutionResult × List Event → Type 0
    GoodByChild o =
        o.0.ok ≡ true
        → (p : SpawnPlan) × (r : Request) × (stdout : String) × (stderr : String) × (returncode : ℤ)
          × (payload : Payload) × (child p r ≡ completed stdout stderr returncode)
          × (parse_response loads stdout ≡ some payload)
          × (payload.ok ≡ true)
          × (o.0 ≡ answered code duration_ms payload)

    starts_child :
        (p : SpawnPlan) (c : Child)
        → child p (request p) ≡ c
        → (start lower config host name loads child duration_ms code timeout (plan p)).1
          ≡ spawned p (request p) ∷ cleaned_up (child p (request p)) p.backend
    starts_child p (completed stdout stderr returncode) e = rw e
    starts_child p timeout_expired e = rw e (by_backend p (request p) p.backend)
    starts_child p (start_failed text) e = rw e

    starts_good :
        (p : SpawnPlan) (c : Child)
        → child p (request p) ≡ c
        → GoodByChild (start lower config host name loads child duration_ms code timeout (plan p))
    starts_good p timeout_expired e h = cc (rw e at h)
    starts_good p (start_failed text) e h = cc (rw e at h)
    starts_good p (completed stdout stderr returncode) e h =
        elim (Option-cases (parse_response loads stdout)) [
          | inl lost ↦ absurd (ground arith)
          | inr (payload, parsed) ↦ (
            p,
            request p,
            stdout,
            stderr,
            returncode,
            payload,
            e,
            parsed,
            ground arith,
            ground arith,
          )
        ]

    Starts-start :
        (q : Planned)
        → planned ≡ q
        → is_empty (strip code) ≡ false
        → ltb max_code_chars (length (chars code)) ≡ false
        → Starts (start lower config host name loads child duration_ms code timeout q)
    Starts-start (failed e) h some_code fits = inl (refl, refl)
    Starts-start (plan p) h some_code fits = inr (
      p,
      request p,
      starts_child p (child p (request p)) refl,
      refl,
      omega (arith, ltb→le max_code_chars (length (chars code)) fits),
      some_code,
      spawn_plan-Isolated snapshot_path timeout p h,
    )

    GoodByChild-start :
        (q : Planned)
        → GoodByChild (start lower config host name loads child duration_ms code timeout q)
    GoodByChild-start (failed e) = λ h. absurd (ground arith)
    GoodByChild-start (plan p) = starts_good p (child p (request p)) refl

    -- An execution starts nothing and is not good, or it starts one child, for code that is not blank
    -- and within the limit: in a container if one was asked for, which is killed when the time is over,
    -- and else in an interpreter.
    pub run_code-Starts : Starts outcome
    run_code-Starts = elim (Bool-cases (is_empty (strip code))) [
      | inl blank ↦ subst Starts (sym (run_code_blank blank)) (inl (refl, refl))
      | inr some_code ↦ elim (Bool-cases (ltb max_code_chars (length (chars code)))) [
        | inl long ↦ subst Starts (sym (run_code_long some_code long)) (inl (refl, refl))
        | inr fits ↦
            subst Starts (sym (run_code_start some_code fits planned refl))
              (Starts-start planned refl some_code fits)
      ]
    ]

    -- A result is good only if a child has completed and its answer says so, and is that answer.
    pub run_code-GoodByChild : GoodByChild outcome
    run_code-GoodByChild = elim (Bool-cases (is_empty (strip code))) [
      | inl blank ↦ subst GoodByChild (sym (run_code_blank blank)) (λ h. absurd (ground arith))
      | inr some_code ↦ elim (Bool-cases (ltb max_code_chars (length (chars code)))) [
        | inl long ↦
            subst GoodByChild (sym (run_code_long some_code long)) (λ h. absurd (ground arith))
        | inr fits ↦
            subst GoodByChild (sym (run_code_start some_code fits planned refl))
              (GoodByChild-start planned)
      ]
    ]
