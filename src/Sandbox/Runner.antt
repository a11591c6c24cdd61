-- ===== src/Sandbox/Runner.antt =====
-- The child, backend/analyst/runner.py: the import guard, the audit hook, and the envelope that
-- `execute` builds and `main` writes. What the code itself does when it is compiled and run is an
-- argument (`Execution`), and so are the namespace, the resource limits and the figures.
use autonomous_ai_analyst.Base.{
  ℕ, String, List, [], ◌∷◌, Bool, true, false, ◌&&◌, ◌||◌, Option, none, some, ◌==◌, ltb,
  if◌then◌else◌, length,
}
use mathlib.Core.Option
use autonomous_ai_analyst.Text.{chars, split, elem, head_chars, contains_char, ◌+++◌}

abbrev pub result_marker : String
result_marker = "<<<ANALYST_RESULT>>>"

abbrev pub max_stdout_chars : ℕ
max_stdout_chars = 20000

abbrev pub blocked_modules : List String
blocked_modules =
    "socket" ∷ "ssl" ∷ "http" ∷ "urllib" ∷ "urllib3" ∷ "requests" ∷ "httpx" ∷ "ftplib" ∷ "smtplib"
    ∷ "telnetlib" ∷ "xmlrpc" ∷ "asyncio" ∷ "subprocess" ∷ "multiprocessing" ∷ "ctypes" ∷ "cffi"
    ∷ "shutil" ∷ "tempfile" ∷ "pickle" ∷ "dill" ∷ "joblib" ∷ "importlib" ∷ "runpy" ∷ "pty"
    ∷ "signal" ∷ "webbrowser" ∷ "sqlite3" ∷ "sqlalchemy" ∷ "sqlmodel" ∷ []

abbrev pub blocked_audit_events : List String
blocked_audit_events =
    "socket.connect" ∷ "socket.bind" ∷ "socket.getaddrinfo" ∷ "socket.gethostbyname"
    ∷ "subprocess.Popen" ∷ "os.system" ∷ "os.exec" ∷ "os.spawn" ∷ "os.fork" ∷ "os.forkpty"
    ∷ "os.posix_spawn" ∷ "shutil.move" ∷ "shutil.rmtree" ∷ "webbrowser.open" ∷ []

pub data Violation : Type 0 where
  import_refused : String → Violation
  event_refused : String → Violation
  write_refused : Violation

-- `name.split(".")[0]`
abbrev pub first_name : List String → String
first_name [] = ""
first_name (part ∷ _) = part

abbrev pub root_module : String → String
root_module name = first_name (split 46 name)

-- `none` hands the import on to the interpreter's own.
unfoldable pub guarded_import : String → Bool → Option Violation
guarded_import name called_from_analysis =
    if elem (root_module name) blocked_modules && called_from_analysis
    then some (import_refused (root_module name))
    else none

-- `any(flag in mode for flag in ("w", "a", "x", "+"))`
abbrev pub writes : String → Bool
writes mode =
    contains_char 119 mode
    || contains_char 97 mode
    || contains_char 120 mode
    || contains_char 43 mode

abbrev hook_mode : Option String → Option Violation
hook_mode none = none
hook_mode (some mode) = if writes mode then some write_refused else none

-- The audit hook at an event; the mode is the second argument of `open`, none for `os.open`.
unfoldable pub hook : String → Option String → Option Violation
hook event mode =
    if elem event blocked_audit_events
    then some (event_refused event)
    else if event == "open"
    then hook_mode mode
    else none

abbrev pub message : Violation → String
message (import_refused root) =
    "Importing '"
    +++ (root
        +++ "' is not allowed in the analysis sandbox. Use the data-analysis libraries instead (pandas, numpy, scipy, sklearn, matplotlib).")
message (event_refused event) = "'" +++ (event +++ "' is not allowed in the analysis sandbox.")
message write_refused = "Writing files is not allowed in the analysis sandbox."

-- How the code ended: the value of its last expression, or what it raised.
pub data Ending : Type 0 where
  returned : Option String → Ending
  violation : Violation → Ending
  syntax_error : String → Ending
  memory_error : Ending
  failure : String → Ending

-- There is no ending where it raised what is no `Exception`, such as `SystemExit`.
pub record Execution : Type 0 where
  pub ending : Option Ending
  pub stdout : String
  pub stderr : String
  pub figures : List String

pub record Payload : Type 0 where
  pub ok : Bool
  pub error : Option String
  pub stdout : String
  pub stdout_truncated : Bool
  pub stderr : String
  pub result : Option String
  pub figures : List String
  pub limits : String

abbrev error_of : Ending → Option String
error_of (returned _) = none
error_of (violation v) = some (message v)
error_of (syntax_error text) = some text
error_of memory_error = some "The code ran out of memory inside the sandbox."
error_of (failure text) = some text

abbrev result_of : Ending → Option String
result_of (returned value) = value
result_of _ = none

abbrev is_none : Option String → Bool
is_none none = true
is_none (some _) = false

abbrev only_error : String → String → Payload
only_error error limits = record {
  ok = false;
  error = some error;
  stdout = "";
  stdout_truncated = false;
  stderr = "";
  result = none;
  figures = [];
  limits = limits;
}

abbrev envelope : String → Execution → Ending → Payload
envelope limits e ending = record {
  ok = is_none (error_of ending);
  error = error_of ending;
  stdout = head_chars max_stdout_chars e.stdout;
  stdout_truncated = ltb max_stdout_chars (length (chars e.stdout));
  stderr = head_chars 2000 e.stderr;
  result = result_of ending;
  figures = if is_none (error_of ending) then e.figures else [];
  limits = limits;
}

-- Its first argument is what building the namespace raised. There is no payload where the process
-- ends instead.
unfoldable pub execute : Option String → String → Execution → Option Payload
execute (some error) limits e =
    some (only_error ("Could not load the dataset snapshot: " +++ error) "not-applied")
execute none limits e = Option.map (envelope limits e) e.ending

-- What `main` writes at the end, for the JSON text of the payload.
unfoldable pub emit : String → String
emit json = "\n" +++ (result_marker +++ ("\n" +++ json))
