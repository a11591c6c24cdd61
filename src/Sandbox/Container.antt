-- ===== src/Sandbox/Container.antt =====
-- backend/analyst/container.py: whether a container is asked for, the command line that starts one,
-- and what the readiness probe says of it. `which` of the runtime, `is_file`, and `resolve` of a path
-- are arguments (`Host`); `lower` is `str.lower`.
use autonomous_ai_analyst.Base.{
  ℕ, String, List, [], ◌∷◌, ◌++◌, Bool, true, false, not, ◌&&◌, ◌||◌, Option, none, some, ◌==◌, eqb,
  if◌then◌else◌,
}
use mathlib.Core.List.{reverse}
use Prim.Native.Char.{Char, code}
use autonomous_ai_analyst.Text.{strip, is_empty, chars, of_chars, ◌+++◌}
use autonomous_ai_analyst.Registry.Decimal.{decimal}

pub record SandboxConfig : Type 0 where
  pub backend : String
  pub runtime : String
  pub image : String
  pub memory_mb : ℕ
  pub pids_limit : ℕ
  pub cpus : String
  pub seccomp_profile : Option String
  pub host_models_dir : Option String
  pub timeout_seconds : ℕ
  pub startup_grace_seconds : ℕ

pub record Host : Type 0 where
  pub which : String → Option String
  pub is_file : String → Bool
  pub resolve : String → String
  pub models_dir : String

pub data SandboxUnavailable : Type 0 where
  runtime_missing : String → SandboxUnavailable
  profile_unreadable : String → SandboxUnavailable

pub data Built : Type 0 where
  argv : List String → Built
  unavailable : SandboxUnavailable → Built

abbrev pub container_snapshot_path : String
container_snapshot_path = "/data/snapshot.csv"

abbrev pub container_runner_path : String
container_runner_path = "/app/runner.py"

-- `relative_to`: what follows the directory, `.` for the directory itself.
abbrev after_slash : List Char → Option (List Char)
after_slash [] = some (chars ".")
after_slash (c ∷ cs) = if eqb (code c) 47 then some cs else none

abbrev relative_to : List Char → List Char → Option (List Char)
relative_to [] cs = after_slash cs
relative_to (d ∷ ds) [] = none
relative_to (d ∷ ds) (c ∷ cs) =
    let rest = relative_to ds cs in if eqb (code d) (code c) then rest else none

abbrev drop_slashes : List Char → List Char
drop_slashes [] = []
drop_slashes (c ∷ cs) = let rest = drop_slashes cs in if eqb (code c) 47 then rest else c ∷ cs

-- `s.rstrip("/")`
abbrev rstrip_slash : String → String
rstrip_slash s = of_chars (reverse (drop_slashes (reverse (chars s))))

-- `(setting or "").strip()`
abbrev pub setting_text : Option String → String
setting_text none = ""
setting_text (some s) = strip s

abbrev rebased : String → String → Option (List Char) → String
rebased host_models resolved none = resolved
rebased host_models resolved (some relative) =
    rstrip_slash host_models +++ ("/" +++ of_chars relative)

unfoldable pub host_snapshot_path : SandboxConfig → Host → String → String
host_snapshot_path config host snapshot_path =
    let resolved = host.resolve snapshot_path in
    let host_models = setting_text config.host_models_dir in
    if is_empty host_models
    then resolved
    else rebased host_models resolved (relative_to (chars host.models_dir) (chars resolved))

-- `_child_env` of the container, as flags.
abbrev env_flags : List String
env_flags =
    "--env" ∷ "MPLBACKEND=Agg" ∷ "--env" ∷ "MPLCONFIGDIR=/tmp/mpl" ∷ "--env" ∷ "HOME=/tmp" ∷ "--env"
    ∷ "PYTHONDONTWRITEBYTECODE=1" ∷ "--env" ∷ "OPENBLAS_NUM_THREADS=1" ∷ "--env"
    ∷ "OMP_NUM_THREADS=1" ∷ []

abbrev isolation_flags : SandboxConfig → String → String → List String
isolation_flags config runtime name =
    let memory = decimal config.memory_mb in
    runtime
    ∷ "run"
    ∷ "--rm"
    ∷ "--interactive"
    ∷ "--name"
    ∷ name
    ∷ "--network"
    ∷ "none"
    ∷ "--read-only"
    ∷ "--tmpfs=/tmp:rw,noexec,nosuid,size=64m,mode=1777"
    ∷ "--cap-drop"
    ∷ "ALL"
    ∷ "--security-opt"
    ∷ "no-new-privileges"
    ∷ ("--memory=" +++ (memory +++ "m"))
    ∷ ("--memory-swap=" +++ (memory +++ "m"))
    ∷ ("--pids-limit=" +++ decimal config.pids_limit)
    ∷ ("--cpus=" +++ config.cpus)
    ∷ []

abbrev seccomp_flags : Host → String → List String
seccomp_flags host profile =
    if is_empty profile then [] else "--security-opt" ∷ ("seccomp=" +++ host.resolve profile) ∷ []

abbrev volume_flags : SandboxConfig → Host → Option String → List String
volume_flags config host none = []
volume_flags config host (some path) =
    "--volume"
    ∷ (host_snapshot_path config host path +++ (":" +++ (container_snapshot_path +++ ":ro")))
    ∷ []

abbrev entry_flags : SandboxConfig → List String
entry_flags config =
    "--entrypoint" ∷ "python" ∷ config.image ∷ "-I" ∷ "-B" ∷ container_runner_path ∷ []

-- A profile that is set has to be a file.
abbrev pub profile_readable : SandboxConfig → Host → Bool
profile_readable config host =
    is_empty (setting_text config.seccomp_profile)
    || host.is_file (setting_text config.seccomp_profile)

abbrev build_with : SandboxConfig → Host → Option String → String → Option String → Built
build_with config host snapshot_path name none = unavailable (runtime_missing config.runtime)
build_with config host snapshot_path name (some runtime) =
    let profile = setting_text config.seccomp_profile in
    if profile_readable config host
    then argv (
        isolation_flags config runtime name
        ++ (seccomp_flags host profile
            ++ (env_flags ++ (volume_flags config host snapshot_path ++ entry_flags config))))
    else unavailable (profile_unreadable profile)

unfoldable pub build_argv : SandboxConfig → Host → Option String → String → Built
build_argv config host snapshot_path name =
    build_with config host snapshot_path name (host.which config.runtime)

unfoldable pub enabled : (String → String) → SandboxConfig → Bool
enabled lower config = lower (strip config.backend) == "container"

abbrev is_some : Option String → Bool
is_some none = false
is_some (some _) = true

-- The verdict of `describe`, its note apart.
pub record Isolation : Type 0 where
  pub is_ok : Bool
  pub in_container : Bool
  pub network_isolated : Bool
  pub read_only_root : Bool

unfoldable pub describe : (String → String) → SandboxConfig → Host → Isolation
unfolding enabled
describe lower config host =
    if not (enabled lower config)
    then record {
      is_ok = true;
      in_container = false;
      network_isolated = false;
      read_only_root = false;
    }
    else record {
      is_ok = is_some (host.which config.runtime) && profile_readable config host;
      in_container = true;
      network_isolated = true;
      read_only_root = true;
    }
