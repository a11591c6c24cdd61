-- ===== src/Sharing/Revocation.antt =====
-- Who can revoke a share link, and what becomes of a revoked one over histories of the calls that
-- write share links (backend/sharing.py, and `delete_share_links_for_run` of backend/db.py).
use autonomous_ai_analyst.Base.{
  All-map, ℕ, ◌+◌, String, List, [], ◌∷◌, ◌++◌, Bool, true, false, not, ◌&&◌, Option, none, some,
  ◌==◌, ◌≡◌, ◌⊎◌, ◌≢◌, refl, sym, subst, inl, inr, arith, eq_iff, ==→eq, Bool-cases, Option-cases,
  All, All-append, All-select,
}
use autonomous_ai_analyst.Common.{Principal, days}
use autonomous_ai_analyst.Settings.{Settings}
use autonomous_ai_analyst.Http.{ok, raised, link_not_found}
use autonomous_ai_analyst.Table.{get, update, IsKeyed, All-update, All-get, key-get, get-All_other}
use autonomous_ai_analyst.Owned.{get_owned}
use autonomous_ai_analyst.Auth.{owner_scope}
use autonomous_ai_analyst.Share.{
  ShareLinkRecord, new_link, link_key, link_owner, revoked, add_share_link, get_share_link,
  revoke_share_link, link_of_run, delete_share_links_for_run,
}
use autonomous_ai_analyst.Database.{Database}
use autonomous_ai_analyst.Sharing.Links.{
  capped_ttl, require_sharing, create_link, revoke_link, resolve_token,
}

-- The row is not a link with this token that was never revoked.
abbrev is_open : ShareLinkRecord → Bool
is_open l = elim l.revoked_at [ none ↦ true | some _ ↦ false ]

abbrev IsDead : String → ShareLinkRecord → Type 0
IsDead token l = ((l.token == token) && is_open l) ≡ false

revoked-IsDead : (token : String) (now : ℕ) (l : ShareLinkRecord) → IsDead token (revoked now l)
revoked-IsDead token now l = ground (arith)

keep-IsDead :
    (token : String) (now : ℕ) (l : ShareLinkRecord) → IsDead token l → IsDead token (revoked now l)
keep-IsDead token now l d = revoked-IsDead token now l

other-IsDead : (token : String) (l : ShareLinkRecord) → (l.token == token) ≡ false → IsDead token l
other-IsDead token l e = rw e refl

revoke-IsDead :
    (token : String) (now : ℕ) (links : List ShareLinkRecord)
    → IsKeyed link_key links
    → All (IsDead token) (update link_key token (revoked now) links)
revoke-IsDead token now [] u = tt
revoke-IsDead token now (x ∷ links) u = elim (Bool-cases (x.token == token)) [
  | inl hit ↦ rw hit (
    revoked-IsDead token now x,
    All-map (λ l. (l.token == token) ≡ false) (IsDead token) links (other-IsDead token)
        (get-All_other link_key token links
          (subst (λ t. get link_key t links ≡ none) (==→eq x.token token hit) u.0)),
  )
  | inr miss ↦ rw miss (rw miss refl, revoke-IsDead token now links u.1)
]

-- A call that writes share links, with the moment at which it runs.
pub data LinkCall : Type 0 where
  mints : String → String → Principal → Option ℕ → LinkCall
  revokes : String → Principal → LinkCall
  erases : String → LinkCall

module _ (settings : Settings) where
  unfoldable pub apply_link : ℕ × LinkCall → Database → Database
  apply_link (now, mints token run_key p ttl_days) db =
      (create_link settings token run_key p ttl_days now db).1
  apply_link (now, revokes token p) db = (revoke_link settings token p now db).1
  apply_link (now, erases run_key) db = record db {
    links = (delete_share_links_for_run run_key db.links).0;
  }

  unfoldable pub run_links : List (ℕ × LinkCall) → Database → Database
  unfolding apply_link
  run_links [] db = db
  run_links (c ∷ cs) db = run_links cs (apply_link c db)

-- The call does not draw this token for a new link.
abbrev pub DrawsOther : String → ℕ × LinkCall → Type 0
DrawsOther token (now, mints t _ _ _) = (t == token) ≡ false
DrawsOther token (now, revokes _ _) = Unit
DrawsOther token (now, erases _) = Unit

module _ (settings : Settings) (token : String) where
  DeadLinks : Database → Type 0
  DeadLinks db = All (IsDead token) db.links

  -- A call leaves the links as they are, or adds the new one.
  minted-links :
      (t run_key : String) (p : Principal) (ttl : Option ℕ) (now : ℕ) (db : Database)
      → ((create_link settings t run_key p ttl now db).1.links ≡ db.links)
        ⊎ ((create_link settings t run_key p ttl now db).1.links
            ≡ db.links
              ++ new_link t run_key p.user_id (now + days (capped_ttl settings ttl)) now ∷ [])
  unfolding create_link require_sharing add_share_link
  minted-links t run_key p ttl now db = elim (Bool-cases settings.share_links_enabled) [
    | inr off ↦ inl (ground (arith))
    | inl on ↦ elim (Option-cases (get link_key t db.links)) [
      | inl free ↦ inr (ground (arith))
      | inr (x, taken) ↦ inl (ground (arith))
    ]
  ]

  mints-dead :
      (t run_key : String) (p : Principal) (ttl : Option ℕ) (now : ℕ) (db : Database)
      → (t == token) ≡ false
      → DeadLinks db
      → DeadLinks (create_link settings t run_key p ttl now db).1
  unfolding DeadLinks
  mints-dead t run_key p ttl now db other d =
      let l : ShareLinkRecord =
        new_link t run_key p.user_id (now + days (capped_ttl settings ttl)) now in
      elim (minted-links t run_key p ttl now db) [
        | inl same ↦ subst (All (IsDead token)) (sym same) d
        | inr more ↦
            subst (All (IsDead token)) (sym more)
              (All-append (IsDead token) db.links (l ∷ []) d (other-IsDead token l other, tt))
      ]

  -- A call leaves the links as they are, or revokes the first one with the token.
  revoked-links :
      (t : String) (p : Principal) (now : ℕ) (db : Database)
      → (((revoke_link settings t p now db).0 ≢ ok tt)
          × ((revoke_link settings t p now db).1.links ≡ db.links))
        ⊎ ((revoke_link settings t p now db).1.links ≡ update link_key t (revoked now) db.links)
  unfolding revoke_link revoke_share_link
  revoked-links t p now db =
      elim (Option-cases (get_owned link_key link_owner t (owner_scope settings p) db.links)) [
        | inl missing ↦ inl (λ e. ground (arith), ground (arith))
        | inr (l, e) ↦ inr (ground (arith))
      ]

  revokes-dead :
      (t : String) (p : Principal) (now : ℕ) (db : Database)
      → DeadLinks db
      → DeadLinks (revoke_link settings t p now db).1
  unfolding DeadLinks
  revokes-dead t p now db d = elim (revoked-links t p now db) [
    | inl (_, same) ↦ subst (All (IsDead token)) (sym same) d
    | inr up ↦
        subst (All (IsDead token)) (sym up)
          (All-update link_key (IsDead token) t (revoked now) db.links (keep-IsDead token now) d)
  ]

  apply-dead :
      (c : ℕ × LinkCall) (db : Database)
      → DrawsOther token c
      → DeadLinks db
      → DeadLinks (apply_link settings c db)
  unfolding apply_link DeadLinks delete_share_links_for_run
  apply-dead (now, mints t run_key p ttl) db o d = mints-dead t run_key p ttl now db o d
  apply-dead (now, revokes t p) db o d = revokes-dead t p now db d
  apply-dead (now, erases run_key) db o d =
      All-select (IsDead token) (λ l. not (link_of_run run_key l)) db.links d

  run-dead :
      (calls : List (ℕ × LinkCall)) (db : Database)
      → All (DrawsOther token) calls
      → DeadLinks db
      → DeadLinks (run_links settings calls db)
  unfolding run_links
  run-dead [] db o d = d
  run-dead (c ∷ calls) db o d =
      run-dead calls (apply_link settings c db) o.1 (apply-dead c db o.0 d)

  dead-refused :
      (now : ℕ) (db : Database) (run_key : String)
      → DeadLinks db
      → (resolve_token settings token now db).0 ≢ ok run_key
  unfolding DeadLinks resolve_token require_sharing get_share_link
  dead-refused now db run_key d e = elim (Option-cases (get link_key token db.links)) [
    | inl missing ↦ ground (arith)
    | inr (l, found) ↦ ground (
      arith,
      All-get link_key (IsDead token) token db.links {r = l} d found,
      key-get link_key token db.links {r = l} found,
      eq_iff l.token token,
    )
  ]

-- A link that was revoked never opens a run again, whatever links are minted and revoked and whatever
-- runs are erased afterwards, at any moment. No later link draws the same token.
pub revoke_link-final :
    (settings : Settings) (token run_key : String) (p : Principal) (at now : ℕ)
    (calls : List (ℕ × LinkCall)) (db : Database)
    → IsKeyed link_key db.links
    → All (DrawsOther token) calls
    → (revoke_link settings token p at db).0 ≡ ok tt
    → (resolve_token settings token now
        (run_links settings calls (revoke_link settings token p at db).1)).0
      ≢ ok run_key
unfolding DeadLinks
revoke_link-final settings token run_key p at now calls db u o e =
    elim (revoked-links settings token token p at db) [
      | inl (refused, _) ↦ absurd (refused e)
      | inr up ↦
          dead-refused settings token now
            (run_links settings calls (revoke_link settings token p at db).1) run_key
            (run-dead settings token calls (revoke_link settings token p at db).1 o
              (subst (All (IsDead token)) (sym up) (revoke-IsDead token at db.links u)))
    ]

-- With auth on, an account that did not mint a link cannot revoke it: it is answered as if there were
-- no such link, and nothing is written.
pub revoke_link-foreign :
    (settings : Settings) (token : String) (p : Principal) (now : ℕ) (db : Database)
    {l : ShareLinkRecord}
    → settings.auth_enabled ≡ true
    → get link_key token db.links ≡ some l
    → (l.owner_id == p.user_id) ≡ false
    → revoke_link settings token p now db ≡ (raised link_not_found, db)
unfolding revoke_link revoke_share_link owner_scope
revoke_link-foreign settings token p now db {l} on e foreign = ground (arith)
