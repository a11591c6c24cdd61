-- ===== src/Share/Records.antt =====
-- `ShareLinkRecord` and its helpers in backend/db.py.
use mathlib.Core.Option
use autonomous_ai_analyst.Base.{
  ℕ, String, List, map, Bool, true, false, ◌&&◌, Option, none, some, ◌==◌, ltb, select,
  delete_where, count,
}
use autonomous_ai_analyst.Common.{owned_by}
use autonomous_ai_analyst.Owned.{get_owned}
use autonomous_ai_analyst.Table.{get, update, add, order_by, descending}

pub record ShareLinkRecord : Type 0 where
  pub token : String
  pub run_key : String
  pub owner_id : String
  pub created_at : ℕ
  pub expires_at : ℕ
  pub revoked_at : Option ℕ

abbrev pub link_key : ShareLinkRecord → String
link_key l = l.token

abbrev pub link_owner : ShareLinkRecord → String
link_owner l = l.owner_id

-- `ShareLinkRecord.is_active`
abbrev pub link_active : ℕ → ShareLinkRecord → Bool
link_active moment l = elim l.revoked_at [ none ↦ ltb moment l.expires_at | some _ ↦ false ]

-- All about a link but its token and owner.
pub record ShareLinkPublic : Type 0 where
  pub run_key : String
  pub created_at : ℕ
  pub expires_at : ℕ
  pub revoked_at : Option ℕ

abbrev pub link_public : ShareLinkRecord → ShareLinkPublic
link_public l = record {
  run_key = l.run_key;
  created_at = l.created_at;
  expires_at = l.expires_at;
  revoked_at = l.revoked_at;
}

abbrev pub new_link : String → String → String → ℕ → ℕ → ShareLinkRecord
new_link token run_key owner_id expires_at now = record {
  token = token;
  run_key = run_key;
  owner_id = owner_id;
  created_at = now;
  expires_at = expires_at;
  revoked_at = none;
}

-- `none`: the token is taken.
unfoldable pub add_share_link :
    String → String → String → ℕ → ℕ → List ShareLinkRecord → Option (List ShareLinkRecord)
add_share_link token run_key owner_id expires_at now =
    add link_key (new_link token run_key owner_id expires_at now)

-- A link by its token whatever its state, and whether it is active.
unfoldable pub get_share_link : String → ℕ → List ShareLinkRecord → Option (ShareLinkRecord × Bool)
get_share_link token now links =
    Option.map (λ (l : ShareLinkRecord). (l, link_active now l)) (get link_key token links)

unfoldable pub list_share_links :
    String → Option String → List ShareLinkRecord → List ShareLinkPublic
list_share_links run_key owner_id links = map link_public (
    order_by (descending λ (l : ShareLinkRecord). l.created_at) (
      select (λ (l : ShareLinkRecord). (l.run_key == run_key) && owned_by owner_id l.owner_id)
        links))

-- The first revocation stays.
abbrev pub revoked : ℕ → ShareLinkRecord → ShareLinkRecord
revoked now l = elim l.revoked_at [ none ↦ record l { revoked_at = some now } | some _ ↦ l ]

-- The new table, and whether the link is there for this owner.
unfoldable pub revoke_share_link :
    String → Option String → ℕ → List ShareLinkRecord → List ShareLinkRecord × Bool
revoke_share_link token owner_id now links =
    elim (get_owned link_key link_owner token owner_id links) [
      | none ↦ (links, false)
      | some _ ↦ (update link_key token (revoked now) links, true)
    ]

abbrev pub link_of_run : String → ShareLinkRecord → Bool
link_of_run run_key l = l.run_key == run_key

unfoldable pub delete_share_links_for_run : String → List ShareLinkRecord → List ShareLinkRecord × ℕ
delete_share_links_for_run run_key links =
    (delete_where (link_of_run run_key) links, count (link_of_run run_key) links)
