-- ===== src/Settings.antt =====
-- The fields of `Settings` (backend/config.py) that the modelled components read. An amount of
-- money is in millionths of a dollar, to which the program rounds what it reports; an SMTP host that
-- is unset or empty is `none`.
use autonomous_ai_analyst.Base.{ℕ, String, Bool, Option}

pub record Settings : Type 0 where
  pub auth_enabled : Bool
  pub max_active_api_keys : ℕ
  pub api_key_default_ttl_days : ℕ
  pub principal_max_llm_calls_per_hour : ℕ
  pub principal_daily_spend_limit : ℕ
  pub principal_max_runs : ℕ
  pub principal_storage_quota_mb : ℕ
  pub principal_max_concurrent_jobs : ℕ
  pub share_links_enabled : Bool
  pub share_link_default_ttl_days : ℕ
  pub share_link_max_ttl_days : ℕ
  pub scheduled_reports_enabled : Bool
  pub smtp_host : Option String
  pub report_schedule_max_due_per_run : ℕ
  pub retention_days : ℕ
