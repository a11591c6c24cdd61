-- ===== src/Sandbox/Parent.antt =====
-- The parent, backend/analyst/sandbox.py: the choice of the backend, one execution, and what it makes
-- of the child's answer. The child process and `json.loads` are arguments. A call returns its result
-- and what it has done to processes, in order.
use autonomous_ai_analyst.Base.{
  ℕ, zero, suc, ◌+◌, ◌-◌, String, List, [], ◌∷◌, Bool, true, false, ◌&&◌, Option, none, some, eqb,
  leb, ltb, if◌then◌else◌, length,
}
use autonomous_ai_analyst.Base.Int.{ℤ, pos, negsuc}
use mathlib.Core.List.{reverse}
use Prim.Native.Char.{Char, code}
use autonomous_ai_analyst.Base.{take}
use autonomous_ai_analyst.Text.{strip, is_empty, chars, of_chars, head_chars}
use autonomous_ai_analyst.Sandbox.Runner.{result_marker, Payload}
use autonomous_ai_analyst.Sandbox.Container.{
  SandboxConfig, Host, SandboxUnavailable, Built, argv, unavailable, build_argv, enabled,
  container_snapshot_path,
}

abbrev pub max_code_chars : ℕ
max_code_chars = 20000

-- The texts of `ExecutionResult.error`.
pub data SandboxError : Type 0 where
  no_code : SandboxError
  code_too_long : SandboxError
  not_available : SandboxUnavailable → SandboxError
  timed_out : ℕ → SandboxError
  could_not_start : String → SandboxError
  stopped : ℕ → SandboxError
  no_result : String → SandboxError
  of_child : String → SandboxError

pub record ExecutionResult : Type 0 where
  pub ok : Bool
  pub code : String
  pub stdout : String
  pub stdout_truncated : Bool
  pub error : Option SandboxError
  pub result : Option String
  pub figures : List String
  pub duration_ms : ℕ
  pub limits : String

abbrev pub refused : String → SandboxError → ℕ → ExecutionResult
refused code error duration_ms = record {
  ok = false;
  code = code;
  stdout = "";
  stdout_truncated = false;
  error = some error;
  result = none;
  figures = [];
  duration_ms = duration_ms;
  limits = "";
}

-- How the child is started; the interpreter's path and its environment are left out.
pub data Backend : Type 0 where
  interpreter : Backend
  container : String → List String → Backend

pub record SpawnPlan : Type 0 where
  pub backend : Backend
  pub snapshot_path : Option String
  pub wall_clock : ℕ

pub data Planned : Type 0 where
  plan : SpawnPlan → Planned
  failed : SandboxUnavailable → Planned

abbrev inside : Option String → Option String
inside none = none
inside (some _) = some container_snapshot_path

abbrev contained : SandboxConfig → Option String → String → ℕ → Built → Planned
contained config snapshot_path name timeout (unavailable e) = failed e
contained config snapshot_path name timeout (argv words) = plan (record {
  backend = container name words;
  snapshot_path = inside snapshot_path;
  wall_clock = timeout + config.startup_grace_seconds;
})

pub record Request : Type 0 where
  pub code : String
  pub snapshot_path : Option String
  pub memory_mb : ℕ
  pub cpu_seconds : ℕ

-- What `subprocess.run` comes to.
pub data Child : Type 0 where
  completed : (stdout stderr : String) (returncode : ℤ) → Child
  timeout_expired : Child
  start_failed : String → Child

pub data Event : Type 0 where
  spawned : SpawnPlan → Request → Event
  killed : String → Event

pub data Signal : Type 0 where
  sigkill sigxcpu : Signal

-- `_SIGNAL_NAMES`
abbrev signal_name : ℕ → Option Signal
signal_name n = if eqb n 9 then some sigkill else if eqb n 24 then some sigxcpu else none

unfoldable pub killed_by_signal : ℤ → Option Signal
killed_by_signal (negsuc n) = signal_name (suc n)
killed_by_signal (pos n) = if leb 128 n then signal_name (n - 128) else none

-- The text after the last occurrence of the marker: `stdout.rpartition(marker)`.
abbrev pub begins_with : List Char → List Char → Bool
begins_with [] cs = true
begins_with (p ∷ ps) [] = false
begins_with (p ∷ ps) (c ∷ cs) = eqb (code p) (code c) && begins_with ps cs

abbrev pub drop : ℕ → List Char → List Char
drop zero cs = cs
drop (suc n) [] = []
drop (suc n) (c ∷ cs) = drop n cs

abbrev later_or : Option (List Char) → Option (List Char) → Option (List Char)
later_or none here = here
later_or (some tail) here = some tail

abbrev pub marked : List Char → List Char → Option (List Char)
marked marker cs = if begins_with marker cs then some (drop (length marker) cs) else none

abbrev pub after_last : List Char → List Char → Option (List Char)
after_last marker [] = marked marker []
after_last marker (c ∷ cs) = later_or (after_last marker cs) (marked marker (c ∷ cs))

abbrev pub loaded : (String → Option Payload) → Option (List Char) → Option Payload
loaded loads none = none
loaded loads (some tail) = loads (strip (of_chars tail))

unfoldable pub parse_response : (String → Option Payload) → String → Option Payload
parse_response loads stdout = loaded loads (after_last (chars result_marker) (chars stdout))

-- `(stderr or "").strip()[-800:] or "no output"`
abbrev end_chars : ℕ → String → String
end_chars n s = of_chars (reverse (take n (reverse (chars s))))

abbrev detail_of : String → String
detail_of stderr =
    let detail = end_chars 800 (strip stderr) in if is_empty detail then "no output" else detail

abbrev unanswered : String → ℕ → String → ℕ → Option Signal → ExecutionResult
unanswered code timeout stderr duration_ms (some _) = refused code (stopped timeout) duration_ms
unanswered code timeout stderr duration_ms none =
    refused code (no_result (detail_of stderr)) duration_ms

abbrev child_error : Option String → Option SandboxError
child_error none = none
child_error (some text) = some (of_child text)

abbrev pub answered : String → ℕ → Payload → ExecutionResult
answered code duration_ms p = record {
  ok = p.ok;
  code = code;
  stdout = p.stdout;
  stdout_truncated = p.stdout_truncated;
  error = child_error p.error;
  result = p.result;
  figures = p.figures;
  duration_ms = duration_ms;
  limits = p.limits;
}

abbrev pub read_answer : String → ℕ → ℕ → String → ℤ → Option Payload → ExecutionResult
read_answer code timeout duration_ms stderr returncode none =
    unanswered code timeout stderr duration_ms (killed_by_signal returncode)
read_answer code timeout duration_ms stderr returncode (some payload) =
    answered code duration_ms payload

abbrev pub kill : Backend → List Event
kill interpreter = []
kill (container name _) = killed name ∷ []

module _ (lower : String → String) (config : SandboxConfig) (host : Host) (name : String) where
  -- `name` is what `container_name` draws. A path is not empty.
  unfoldable pub spawn_plan : Option String → ℕ → Planned
  spawn_plan snapshot_path timeout =
      if enabled lower config
      then contained config snapshot_path name timeout (build_argv config host snapshot_path name)
      else plan
          (record { backend = interpreter; snapshot_path = snapshot_path; wall_clock = timeout })

  module _ (loads : String → Option Payload) (child : SpawnPlan → Request → Child)
      (duration_ms : ℕ) where
    abbrev pub ended : String → ℕ → SpawnPlan → Child → ExecutionResult × List Event
    ended code timeout p (completed stdout stderr returncode) =
        (read_answer code timeout duration_ms stderr returncode (parse_response loads stdout), [])
    ended code timeout p timeout_expired =
        (refused code (timed_out timeout) duration_ms, kill p.backend)
    ended code timeout p (start_failed text) = (refused code (could_not_start text) 0, [])

    abbrev pub request_of : String → ℕ → SpawnPlan → Request
    request_of code timeout p = record {
      code = code;
      snapshot_path = p.snapshot_path;
      memory_mb = config.memory_mb;
      cpu_seconds = if leb (timeout - 1) 1 then 1 else timeout - 1;
    }

    abbrev pub start : String → ℕ → Planned → ExecutionResult × List Event
    start code timeout (failed e) = (refused code (not_available e) 0, [])
    start code timeout (plan p) =
        let request = request_of code timeout p in
        let (result, events) = ended code timeout p (child p request) in
        (result, spawned p request ∷ events)

    -- `timeout_seconds or settings.sandbox_timeout_seconds`
    abbrev pub timeout_of : Option ℕ → ℕ
    timeout_of none = config.timeout_seconds
    timeout_of (some n) = if eqb n 0 then config.timeout_seconds else n

    unfoldable pub run_code : String → Option String → Option ℕ → ExecutionResult × List Event
    run_code code snapshot_path timeout_seconds =
        if is_empty (strip code)
        then (refused code no_code 0, [])
        else if ltb max_code_chars (length (chars code))
        then (refused (head_chars max_code_chars code) code_too_long 0, [])
        else start code (timeout_of timeout_seconds)
            (spawn_plan snapshot_path (timeout_of timeout_seconds))
