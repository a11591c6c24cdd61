-- ===== src/Examples/Sandbox.antt =====
-- The sandbox at concrete inputs.
use autonomous_ai_analyst.Base.{String, [], true, false, Option, none, some, ◌≡◌, refl, ◌==◌}
use autonomous_ai_analyst.Text.{◌+++◌, strip}
use autonomous_ai_analyst.Sandbox.Runner.{
  Payload, emit, guarded_import, hook, import_refused, write_refused, result_marker,
}
use autonomous_ai_analyst.Sandbox.Container.{SandboxConfig, Host}
use autonomous_ai_analyst.Sandbox.Parent.{
  SpawnPlan, Request, Child, timeout_expired, run_code, parse_response,
}
use autonomous_ai_analyst.Sandbox.Envelope.{parse_response-emit, parse_response_cut}
use autonomous_ai_analyst.Sandbox.Outcomes.{Starts, run_code-Starts}

abbrev payload : Payload
payload = record {
  ok = true;
  error = none;
  stdout = "";
  stdout_truncated = false;
  stderr = "";
  result = some "7";
  figures = [];
  limits = "rlimit";
}

-- A stand-in for `json.loads` that knows one text.
abbrev loads : String → Option Payload
loads text = elim (text == "{7}") [ true ↦ some payload | false ↦ none ]

parse_response-emit_example :
    parse_response loads ("hi <<<ANALYST_RESULT>>> " +++ emit "{7}") ≡ loads (strip "{7}")
parse_response-emit_example = parse_response-emit loads "hi <<<ANALYST_RESULT>>> " "{7}" refl

parse_response_cut_example :
    parse_response loads ("" +++ emit ("{ hi " +++ (result_marker +++ " 7}"))) ≡ loads (strip " 7}")
parse_response_cut_example = parse_response_cut loads "" "{ hi " " 7}" refl

abbrev sandbox : SandboxConfig
sandbox = record {
  backend = "container";
  runtime = "docker";
  image = "analyst";
  memory_mb = 512;
  pids_limit = 64;
  cpus = "1";
  seccomp_profile = none;
  host_models_dir = some "/srv/models/";
  timeout_seconds = 30;
  startup_grace_seconds = 5;
}

abbrev machine : Host
machine = record {
  which = λ r. some "/usr/bin/docker";
  is_file = λ p. true;
  resolve = λ p. p;
  models_dir = "/app/models";
}

abbrev unchanged : String → String
unchanged s = s

abbrev hangs : SpawnPlan → Request → Child
hangs p r = timeout_expired

run_code-Starts_example :
    Starts unchanged sandbox machine "box" loads hangs 30000 "while True: pass" none none
      (run_code unchanged sandbox machine "box" loads hangs 30000 "while True: pass" none none)
run_code-Starts_example =
    run_code-Starts unchanged sandbox machine "box" loads hangs 30000 "while True: pass" none none

imports :
    (guarded_import "urllib.request" true ≡ some (import_refused "urllib"))
    × (guarded_import "urllib.request" false ≡ none)
    × (guarded_import "pandas" true ≡ none)
    × (hook "open" (some "r+b") ≡ some write_refused)
    × (hook "open" (some "rb") ≡ none)
unfolding guarded_import hook
imports = (refl, refl, refl, refl, refl)
