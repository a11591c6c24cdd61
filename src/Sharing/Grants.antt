-- ===== src/Sharing/Grants.antt =====
-- What a share link opens and for how long (backend/sharing.py), over histories of the calls that
-- write share links.

use autonomous_ai_analyst.Base.{
  ℕ, ◌+◌, ◌≤◌, String, true, Option, none, some, ◌≡◌, inl, inr, arith, ltb, Bool-cases,
  Option-cases, if◌then◌else◌,
}
use autonomous_ai_analyst.Common.{Principal, days}
use autonomous_ai_analyst.Settings.{Settings}
use autonomous_ai_analyst.Http.{ok, raised, link_invalid}
use autonomous_ai_analyst.Table.{get, add, get-add_self}
use autonomous_ai_analyst.Share.{
  ShareLinkRecord, new_link, link_key, link_active, add_share_link, get_share_link,
}
use autonomous_ai_analyst.Database.{Database}
use autonomous_ai_analyst.Sharing.Links.{capped_ttl, require_sharing, create_link, resolve_token}

resolve-found :
    (settings : Settings) (token : String) (now : ℕ) (db : Database) (l : ShareLinkRecord)
    → settings.share_links_enabled ≡ true
    → get link_key token db.links ≡ some l
    → (resolve_token settings token now db).0
      ≡ (if link_active now l then ok l.run_key else raised link_invalid)
unfolding resolve_token require_sharing get_share_link
resolve-found settings token now db l on e = elim (Bool-cases (link_active now l)) [
  | inl a ↦ ground (arith)
  | inr a ↦ ground (arith)
]

created-links :
    (settings : Settings) (token run_key : String) (p : Principal) (ttl_days : Option ℕ) (now : ℕ)
    (db : Database) {t : String}
    → (create_link settings token run_key p ttl_days now db).0 ≡ ok t
    → (settings.share_links_enabled ≡ true)
      × (add link_key
            (new_link token run_key p.user_id (now + days (capped_ttl settings ttl_days)) now)
            db.links
          ≡ some (create_link settings token run_key p ttl_days now db).1.links)
unfolding create_link require_sharing add_share_link
created-links settings token run_key p ttl_days now db {t} e =
    elim (Option-cases (
      add link_key
        (new_link token run_key p.user_id (now + days (capped_ttl settings ttl_days)) now)
        db.links)) [
          | inl taken ↦ absurd (ground (arith))
          | inr (links, added) ↦ (ground (arith), ground (arith))
        ]

capped : (s : Settings) (d : Option ℕ) → capped_ttl s d ≤ s.share_link_max_ttl_days
unfolding capped_ttl
capped s none = omega arith
capped s (some d) = omega arith

-- A link that was just minted opens its run, and only that run, before the end of its lifetime; from
-- then on it is refused. The lifetime is never longer than the configured maximum.
pub create_link-resolves :
    (settings : Settings) (token run_key : String) (p : Principal) (ttl_days : Option ℕ)
    (now later : ℕ) (db : Database) {t : String}
    → (create_link settings token run_key p ttl_days now db).0 ≡ ok t
    → ((resolve_token settings token later
          (create_link settings token run_key p ttl_days now db).1).0
        ≡ (if ltb later (now + days (capped_ttl settings ttl_days))
            then ok run_key
            else raised link_invalid))
      × (capped_ttl settings ttl_days ≤ settings.share_link_max_ttl_days)
create_link-resolves settings token run_key p ttl_days now later db {t} e =
    let (on, added) = created-links settings token run_key p ttl_days now db {t = t} e in
    let l : ShareLinkRecord =
      new_link token run_key p.user_id (now + days (capped_ttl settings ttl_days)) now in
    let db' = (create_link settings token run_key p ttl_days now db).1 in
    (
      resolve-found settings token later db' l on
          (get-add_self link_key l db.links {u = db'.links} added),
      capped settings ttl_days,
    )
