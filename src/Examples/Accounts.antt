-- ===== src/Examples/Accounts.antt =====
-- Accounts and keys at concrete inputs.
use autonomous_ai_analyst.Base.{
  ℕ, ◌≤◌, List, [], ◌∷◌, false, none, some, ◌==◌, ◌≡◌, ◌↔◌, ◌⊎◌, refl, arith,
}
use autonomous_ai_analyst.Http.{ok, raised, run_not_found}
use autonomous_ai_analyst.Users.{
  count_active_api_keys, key_revoked, get_api_key_by_hash, list_api_keys, revoke_api_key,
  set_user_active, get_user_by_key_hash,
}
use autonomous_ai_analyst.Runs.{run_owner}
use autonomous_ai_analyst.Auth.{
  principal_from_hash, principal_from_key, require_owned_run, revoke_my_key, deactivate_user,
}
use autonomous_ai_analyst.Auth.Admission.{deactivate_user-shut}
use autonomous_ai_analyst.Auth.Revocation.{
  AccountCall, authenticates, issues, run_account, revoke_my_key-final,
}
use autonomous_ai_analyst.Auth.KeyCounts.{require_owned_run_iff, revoke_my_key-keeps}
use autonomous_ai_analyst.Examples.Data.{
  settings, alice, bob, marked, user_of, key_of_bob, database,
}

abbrev later_calls : List (ℕ × AccountCall)
later_calls = (30, authenticates "b1") ∷ (31, issues "k3" "#b0" bob none none) ∷ []

-- The hash of the revoked key stands on the user's row too, and is issued once more.
revoke_my_key-final_example :
    (principal_from_key marked "b0" 40 (
      run_account settings marked
        (λ s. s)
        later_calls
        (revoke_my_key settings "k1" bob 20 database).1)).1
    ≡ none
unfolding revoke_my_key list_api_keys revoke_api_key get_api_key_by_hash
revoke_my_key-final_example =
    revoke_my_key-final settings marked (λ s. s) "k1" "b0" bob 20 40 later_calls database
      {k = key_of_bob "k1" "#b0"} {row = key_revoked 20 (key_of_bob "k1" "#b0")} (refl, (refl, tt))
      refl refl refl

-- A key of another account still works.
deactivate_user-shut_example : (alice.user_id == "bob") ≡ false
unfolding deactivate_user set_user_active principal_from_key principal_from_hash get_api_key_by_hash
    get_user_by_key_hash
deactivate_user-shut_example =
    deactivate_user-shut marked "bob" "a0" alice 20 30 database
      {u = record (user_of bob "#b0") { is_active = false }} {p = alice} (refl, (refl, tt)) refl
      refl

revoke_my_key-keeps_example :
    1
    ≤ count_active_api_keys bob.user_id 20 (revoke_my_key settings "k1" bob 20 database).1.api_keys
unfolding revoke_my_key list_api_keys revoke_api_key count_active_api_keys
revoke_my_key-keeps_example =
    revoke_my_key-keeps settings "k1" bob 20 database {row = key_revoked 20 (key_of_bob "k1" "#b0")}
      (refl, (refl, tt)) (omega arith) refl

require_owned_run_iff_example :
    ((require_owned_run settings "rb" alice database ≡ ok tt)
      ↔ (run_owner "rb" database.runs ≡ some alice.user_id))
    × ((require_owned_run settings "rb" alice database ≡ ok tt)
        ⊎ (require_owned_run settings "rb" alice database ≡ raised run_not_found))
require_owned_run_iff_example = require_owned_run_iff settings "rb" alice database refl
