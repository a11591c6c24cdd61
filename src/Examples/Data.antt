-- ===== src/Examples/Data.antt =====
-- A small database that the examples run on: two accounts, one run each, and what belongs to them.
use autonomous_ai_analyst.Base.{ℕ, String, [], ◌∷◌, Bool, true, false, Option, none, some}
use autonomous_ai_analyst.Text.{◌+++◌}
use autonomous_ai_analyst.Common.{Principal}
use autonomous_ai_analyst.Settings.{Settings}
use autonomous_ai_analyst.Jobs.{JobRecord, queued}
use autonomous_ai_analyst.Runs.{RunRecord}
use autonomous_ai_analyst.Versions.{ModelVersionRecord, initial}
use autonomous_ai_analyst.Base.Int.{pos}
use autonomous_ai_analyst.Share.{ShareLinkRecord}
use autonomous_ai_analyst.Schedules.{ReportScheduleRecord}
use autonomous_ai_analyst.Users.{UserRecord, ApiKeyRecord}
use autonomous_ai_analyst.Storage.{Store, metadata_dir, model_dir}
use autonomous_ai_analyst.Database.{Database}

abbrev pub settings : Settings
settings = record {
  auth_enabled = true;
  max_active_api_keys = 3;
  api_key_default_ttl_days = 0;
  principal_max_llm_calls_per_hour = 10;
  principal_daily_spend_limit = 0;
  principal_max_runs = 2;
  principal_storage_quota_mb = 0;
  principal_max_concurrent_jobs = 2;
  share_links_enabled = true;
  share_link_default_ttl_days = 7;
  share_link_max_ttl_days = 30;
  scheduled_reports_enabled = true;
  smtp_host = some "mail";
  report_schedule_max_due_per_run = 5;
  retention_days = 90;
}

abbrev pub alice : Principal
alice = record { user_id = "alice"; email = "a@x"; is_admin = true }

abbrev pub bob : Principal
bob = record { user_id = "bob"; email = "b@x"; is_admin = false }

-- A stand-in for SHA-256 that no two keys share.
abbrev pub marked : String → String
marked key = "#" +++ key

abbrev pub user_of : Principal → String → UserRecord
user_of p hash = record {
  user_id = p.user_id;
  email = p.email;
  api_key_hash = hash;
  is_active = true;
  is_admin = p.is_admin;
  created_at = 1;
  last_seen_at = none;
}

abbrev pub key_of_bob : String → String → ApiKeyRecord
key_of_bob key_id hash = record {
  key_id = key_id;
  user_id = "bob";
  key_hash = hash;
  label = none;
  created_at = 2;
  expires_at = none;
  revoked_at = none;
  last_used_at = none;
}

abbrev pub run_of : String → Principal → Option ℕ → RunRecord
run_of run_key p expires_at = record {
  fields = record {
    run_key = run_key;
    dataset_hash = "d";
    filename = none;
    mode = "auto";
    target = some "price";
    problem_type = none;
    selected_model = none;
    health_verdict = none;
    row_count = 10;
    column_count = 2;
    pipeline_version = none;
    owner_id = p.user_id;
    expires_at = expires_at;
  };
  created_at = 5;
}

abbrev pub job_of : String → Principal → JobRecord
job_of job_id p = record {
  job_id = job_id;
  state = queued;
  current_step = "Queued";
  progress = 0;
  status_log = record { step = "Upload received"; progress = 0; timestamp = 6 } ∷ [];
  result = none;
  error = none;
  error_kind = none;
  run_key = none;
  owner_id = p.user_id;
  created_at = 6;
  updated_at = 6;
}

abbrev pub version_of : String → String → ℕ → Bool → ModelVersionRecord
version_of version_id run_key version is_champion = record {
  version_id = version_id;
  run_key = run_key;
  owner_id = "bob";
  version = version;
  created_at = 7;
  artifact_suffix = "_model.pkl";
  selected_model = some "forest";
  metric_name = some "rmse";
  metric_value = some (pos 20);
  rows_trained = 10;
  is_champion = is_champion;
  promoted_at = none;
  superseded_at = none;
  source = initial;
  notes = [];
}

abbrev pub link_of : String → String → Principal → ShareLinkRecord
link_of token run_key p = record {
  token = token;
  run_key = run_key;
  owner_id = p.user_id;
  created_at = 8;
  expires_at = 1000;
  revoked_at = none;
}

abbrev pub schedule_of : String → String → Principal → ReportScheduleRecord
schedule_of schedule_id run_key p = record {
  schedule_id = schedule_id;
  run_key = run_key;
  owner_id = p.user_id;
  recipients = "b@x";
  interval = "daily";
  created_at = 9;
  next_run_at = 20;
  last_run_at = none;
  last_status = none;
  active = true;
}

abbrev pub store : Store
store = record {
  files =
      record { root = metadata_dir; name = "rb.json"; size = 10; locked = false }
      ∷ record { root = model_dir; name = "rb_model.pkl"; size = 20; locked = true }
      ∷ record { root = model_dir; name = "rb_v2_model.pkl"; size = 20; locked = false }
      ∷ [];
  bucket = some (record { keys = "rb.json" ∷ "ra.json" ∷ []; reachable = true });
}

abbrev pub database : Database
database = record {
  users = user_of alice "#a0" ∷ user_of bob "#b0" ∷ [];
  api_keys = key_of_bob "k1" "#b0" ∷ key_of_bob "k2" "#b1" ∷ [];
  audit_log = [];
  usage = [];
  jobs = job_of "j1" bob ∷ job_of "j2" alice ∷ [];
  chats = record {
    conversations =
        record {
          conversation_id = "c1";
          run_key = "rb";
          owner_id = "bob";
          title = none;
          total_tokens = 0;
          created_at = 6;
          updated_at = 6;
        }
        ∷ [];
    messages = [];
  };
  runs = run_of "ra" alice none ∷ run_of "rb" bob (some 50) ∷ [];
  predictions = [];
  versions = version_of "v1" "rb" 1 true ∷ version_of "v2" "rb" 2 false ∷ [];
  links = link_of "t1" "rb" bob ∷ [];
  schedules = schedule_of "s1" "rb" bob ∷ [];
  store = store;
}

abbrev pub digest : String
digest = "0123456789abcdef0123456789abcdef0123456789abcdef0123456789abcdef"

-- One more run of bob's, under a key of the right form.
abbrev pub hashed : Database
hashed = record database { runs = run_of "ra" alice none ∷ run_of digest bob none ∷ [] }
