-- ===== src/Sharing/Links.antt =====
-- `create_link`, `list_links`, `revoke_link` and `resolve_token` of backend/sharing.py.
use autonomous_ai_analyst.Base.{
  ℕ, ◌+◌, min, String, List, not, Option, none, some, eqb, if◌then◌else◌,
}
use autonomous_ai_analyst.Text.{head_chars}
use autonomous_ai_analyst.Common.{Principal, days}
use autonomous_ai_analyst.Settings.{Settings}
use autonomous_ai_analyst.Http.{sharing_disabled, link_not_found, link_invalid, server_error}
use autonomous_ai_analyst.Auth.{owner_scope}
use autonomous_ai_analyst.Audit.{principal, share_link_created, share_link_revoked}
use autonomous_ai_analyst.Share.{
  ShareLinkPublic, add_share_link, get_share_link, list_share_links, revoke_share_link,
}
use autonomous_ai_analyst.Database.{
  Database, Call, pure, raise, gets, or_raise, ◌>>=◌, ◌>>◌, raise_if, modify, audit,
}

module _ (settings : Settings) where
  unfoldable pub require_sharing : Call (Unit {0})
  require_sharing = raise_if (not settings.share_links_enabled) sharing_disabled

  -- The lifetime in days: what was asked for, or the default for nothing and 0, up to the maximum.
  unfoldable pub capped_ttl : Option ℕ → ℕ
  capped_ttl none = min settings.share_link_default_ttl_days settings.share_link_max_ttl_days
  capped_ttl (some t) =
      min (if eqb t 0 then settings.share_link_default_ttl_days else t)
        settings.share_link_max_ttl_days

  -- Answers the token.
  unfoldable pub create_link : String → String → Principal → Option ℕ → ℕ → Call String
  unfolding require_sharing
  create_link token run_key p ttl_days now =
      require_sharing
      >> (gets λ db.
          add_share_link token run_key p.user_id (now + days (capped_ttl ttl_days)) now db.links)
      >>= (λ links. or_raise links server_error)
      >>= (λ links. modify λ db. record db { links = links })
      >> audit share_link_created (principal p) (some "run") (some run_key) now
      >> pure token

  unfoldable pub list_links : String → Principal → Database → List ShareLinkPublic
  list_links run_key p db = list_share_links run_key (owner_scope settings p) db.links

  unfoldable pub revoke_link : String → Principal → ℕ → Call (Unit {0})
  revoke_link token p now =
      (gets λ db. revoke_share_link token (owner_scope settings p) now db.links) >>= λ (links, ok).
      raise_if (not ok) link_not_found
      >> modify (λ db. record db { links = links })
      >> audit share_link_revoked (principal p) (some "share_link") (some (head_chars 8 token)) now

  -- Answers the run that the token opens.
  unfoldable pub resolve_token : String → ℕ → Call String
  unfolding require_sharing
  resolve_token token now =
      require_sharing >> gets (λ db. get_share_link token now db.links) >>= λ found. elim found [
        | none ↦ raise link_invalid
        | some (link, active) ↦ raise_if (not active) link_invalid >> pure link.run_key
      ]
