-- ===== src/Http.antt =====
-- What the program raises to a caller. `HTTPException` carries a status and a text: a constructor
-- stands for one such pair of the source, and for an exception that no handler expects (500).
use autonomous_ai_analyst.Base.{ℕ, String, ◌≡◌, ◌⊎◌, inl, inr, refl}

pub data HttpError : Type 0 where
  sharing_disabled link_not_found link_invalid : HttpError
  reports_disabled smtp_missing bad_interval no_recipients schedule_not_found : HttpError
  bad_address : String → HttpError
  auth_required invalid_key admin_required run_not_found : HttpError
  too_many_keys bad_email email_taken keys_disabled key_not_found last_key : HttpError
  own_account user_not_found not_confirmed job_not_found : HttpError
  llm_calls_per_hour daily_spend max_runs storage_quota concurrent_jobs : HttpError
  bad_dataset_hash : HttpError
  no_run_key no_metadata no_question long_question : HttpError
  unknown_conversation other_run hourly_messages token_budget : HttpError
  server_error : HttpError

abbrev pub status_code : HttpError → ℕ
status_code sharing_disabled = 403
status_code link_not_found = 404
status_code link_invalid = 404
status_code reports_disabled = 403
status_code smtp_missing = 503
status_code bad_interval = 400
status_code no_recipients = 400
status_code schedule_not_found = 404
status_code (bad_address _) = 400
status_code auth_required = 401
status_code invalid_key = 401
status_code admin_required = 403
status_code run_not_found = 404
status_code too_many_keys = 409
status_code bad_email = 400
status_code email_taken = 409
status_code keys_disabled = 400
status_code key_not_found = 404
status_code last_key = 409
status_code own_account = 400
status_code user_not_found = 404
status_code not_confirmed = 400
status_code job_not_found = 404
status_code llm_calls_per_hour = 429
status_code daily_spend = 429
status_code max_runs = 413
status_code storage_quota = 413
status_code concurrent_jobs = 429
status_code bad_dataset_hash = 400
status_code no_run_key = 422
status_code no_metadata = 404
status_code no_question = 422
status_code long_question = 413
status_code unknown_conversation = 404
status_code other_run = 400
status_code hourly_messages = 429
status_code token_budget = 429
status_code server_error = 500

pub data Result {ℓ} (A : Type ℓ) : Type ℓ where
  ok : A → Result A
  raised : HttpError → Result A

pub result-cases :
    {A : Type 0} (r : Result A) → ((a : A) × (r ≡ ok a)) ⊎ ((e : HttpError) × (r ≡ raised e))
result-cases (ok a) = inl (a, refl)
result-cases (raised e) = inr (e, refl)
