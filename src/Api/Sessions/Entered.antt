-- ===== src/Api/Sessions/Entered.antt =====
-- What a login that goes through has checked (apps/api/routes/auth.py, apps/api/repositories.py).
use aipy.Prelude.{
  String, refl, sym, ap, subst, Bool, true, false, Option, none, some, List, eq_iff, ◌+◌, ◌≤◌, ◌<◌,
  ◌≡◌, ◌∙◌, ◌&&◌, ◌==◌, nat_beq_iff, and_Decides, find, find_holds, In, In-find, string_eq, nat_eq,
}
use aipy.Prelude.Options.{require, >>=-eq-some, some_inj}
use aipy.Security.{Uuid}
use aipy.Organization.{AppUser, TenantMembership}
use aipy.Identity.Claims.{Time, TokenSubject, TokenPair, JwtTokenSettings}
use aipy.Identity.Payloads.{JwtLibrary, timestamp, from_timestamp}
use aipy.Identity.Revocations.{RevocationRepository}
use aipy.Identity.Tokens.{issue_token_pair, tenant_context_from_access_token}
use aipy.Identity.Tokens.Issued.{context_for, issued_token_identifies}
use aipy.Api.Errors.{ok, ok_inj}
use aipy.Api.Sessions.Accounts.{Directory, Texts, authenticate, TenantSession, build_session}
use aipy.Api.Sessions.{
  LoginLockout, SetCookie, auth_cookies, Entry, enter, LoginTimes, LoginIds, lockout_key,
  after_authenticate, after_lock, login,
}

-- An active user with that password, and an active membership of theirs.
pub record Admitted (texts : Texts) (db : Directory) (email password : String)
    (subject : TokenSubject) : Type 0 where
  pub user : AppUser
  pub membership : TenantMembership
  pub found : In user db.tables.users
  pub same_email : texts.citext_equal user.email email ≡ true
  pub user_active : user.status ≡ "ACTIVE"
  pub verified : texts.verify password user.password_hash ≡ true
  pub joined : In membership db.tables.memberships
  pub own_membership : membership.user_id ≡ user.id
  pub membership_active : membership.status ≡ "ACTIVE"
  pub actor : subject.actor_id ≡ user.id
  pub tenant : subject.tenant_id ≡ membership.tenant_id

require-eq-some : (t : Bool) → require t ≡ some tt → t ≡ true
require-eq-some true h = refl
require-eq-some false h = cc

pub authenticate-Admitted :
    (texts : Texts) (db db' : Directory) (email password : String) (now : Time) (session_id : Uuid)
    (subject : TokenSubject)
    → authenticate texts db email password now session_id ≡ some (subject, db')
    → Admitted texts db email password subject × (subject.session_id ≡ session_id)
unfolding authenticate
authenticate-Admitted texts db db' email password now session_id subject h =
    let (user, found, h₁) =
      >>=-eq-some (find (λ (u : AppUser). texts.citext_equal u.email email) db.tables.users) _ h in
    let (_a, active, h₂) = >>=-eq-some (require (user.status == "ACTIVE")) _ h₁ in
    let (_b, verified, h₃) =
      >>=-eq-some (require (texts.verify password user.password_hash)) _ h₂ in
    let (membership, joined, h₄) =
      >>=-eq-some
        (find (λ (m : TenantMembership). m.user_id == user.id && m.status == "ACTIVE")
          db.tables.memberships)
        _ h₃ in
    let (own, member_active) =
      (and_Decides _ _ (nat_beq_iff membership.user_id user.id)
          (eq_iff membership.status "ACTIVE")).0
        (find_holds (λ (m : TenantMembership). m.user_id == user.id && m.status == "ACTIVE")
          db.tables.memberships membership joined) in
    let same = some_inj h₄ in
    (
      record {
        user = user;
        membership = membership;
        found = In-find _ db.tables.users user found;
        same_email =
            find_holds (λ (u : AppUser). texts.citext_equal u.email email) db.tables.users user
              found;
        user_active = (eq_iff user.status "ACTIVE").0 (require-eq-some _ active);
        verified = require-eq-some _ verified;
        joined = In-find _ db.tables.memberships membership joined;
        own_membership = own;
        membership_active = member_active;
        actor = sym (ap (λ x. x.0.actor_id) same);
        tenant = sym (ap (λ x. x.0.tenant_id) same);
      },
      sym (ap (λ x. x.0.session_id) same),
    )

pub enter-ok :
    {Token : Type 0} (session : Option TenantSession) (pair : TokenPair Token)
    (cookies : List (SetCookie Token)) (entry : Entry Token)
    → enter session pair cookies ≡ ok entry
    → (session ≡ some entry.session) × (entry.pair ≡ pair) × (entry.cookies ≡ cookies)
enter-ok none pair cookies entry h = absurd cc
enter-ok {Token = Token} (some s) pair cookies entry h =
    let same = ok_inj h in
    (
      ap (λ (e : Entry Token). some e.session) same,
      sym (ap (λ (e : Entry Token). e.pair) same),
      sym (ap (λ (e : Entry Token). e.cookies) same),
    )

module _ {L Store Token : Type 0} (lockout : LoginLockout L) (texts : Texts)
    (jwt : JwtLibrary Token) (settings : JwtTokenSettings)
    (revocations : RevocationRepository Store) (secure : Bool) where
  pub record LoggedIn (email password : String) (times : LoginTimes) (ids : LoginIds) (st : L)
      (db : Directory) (entry : Entry Token) (st' : L) (db' : Directory) : Type 0 where
    pub subject : TokenSubject
    pub unlocked :
        (lockout.is_locked st
          (lockout_key lockout texts jwt settings revocations secure email)
          times.at_lock).0
        ≡ false
    pub admitted : Admitted texts db email password subject
    pub session_id : subject.session_id ≡ ids.session_id
    pub tokens :
        entry.pair
        ≡ issue_token_pair jwt settings revocations subject times.at_issue ids.access_id
            ids.refresh_id
    pub cookies :
        entry.cookies
        ≡ auth_cookies entry.pair secure times.at_access_cookie times.at_refresh_cookie
    pub session : build_session db' subject.tenant_id subject.actor_id ≡ some entry.session
    pub forgiven :
        st'
        ≡ lockout.reset
            (lockout.is_locked st
              (lockout_key lockout texts jwt settings revocations secure email)
              times.at_lock).1
            (lockout_key lockout texts jwt settings revocations secure email)

  after_authenticate-LoggedIn :
      (email password : String) (times : LoginTimes) (ids : LoginIds) (st s st' : L)
      (db db' : Directory) (entry : Entry Token) (o : Option (TokenSubject × Directory))
      → lockout.is_locked st
          (lockout_key lockout texts jwt settings revocations secure email)
          times.at_lock
        ≡ (false, s)
      → authenticate texts db email password times.at_login ids.session_id ≡ o
      → after_authenticate lockout texts jwt settings revocations secure o email times ids s db
        ≡ (ok entry, (st', db'))
      → LoggedIn email password times ids st db entry st' db'
  after_authenticate-LoggedIn email password times ids st s st' db db' entry none e k h = absurd cc
  after_authenticate-LoggedIn email password times ids st s st' db db' entry (some (subject, d)) e k
        h =
      let (admitted, session_id) =
        authenticate-Admitted texts db d email password times.at_login ids.session_id subject k in
      let (session, pair, cookies) =
        enter-ok (build_session d subject.tenant_id subject.actor_id) _ _ entry (ap (λ x. x.0) h) in
      record {
        subject = subject;
        unlocked = ap (λ x. x.0) e;
        admitted = admitted;
        session_id = session_id;
        tokens = pair;
        cookies =
            cookies
            ∙ ap (λ p. auth_cookies p secure times.at_access_cookie times.at_refresh_cookie)
                (sym pair);
        session =
            subst (λ x. build_session x subject.tenant_id subject.actor_id ≡ some entry.session)
              (ap (λ x. x.1.1) h) session;
        forgiven =
            sym (ap (λ x. x.1.0) h)
            ∙ ap
                (λ x.
                  lockout.reset x.1
                    (lockout_key lockout texts jwt settings revocations secure email))
                (sym e);
      }

  after_lock-LoggedIn :
      (email password : String) (times : LoginTimes) (ids : LoginIds) (st st' : L)
      (db db' : Directory) (entry : Entry Token) (r : Bool × L)
      → lockout.is_locked st
          (lockout_key lockout texts jwt settings revocations secure email)
          times.at_lock
        ≡ r
      → after_lock lockout texts jwt settings revocations secure r email password times ids db
        ≡ (ok entry, (st', db'))
      → LoggedIn email password times ids st db entry st' db'
  after_lock-LoggedIn email password times ids st st' db db' entry (true, s) e h = absurd cc
  after_lock-LoggedIn email password times ids st st' db db' entry (false, s) e h =
      after_authenticate-LoggedIn email password times ids st s st' db db' entry
        (authenticate texts db email password times.at_login ids.session_id) e refl h

  -- What a login that succeeds found, and what it set.
  pub login-LoggedIn :
      (email password : String) (times : LoginTimes) (ids : LoginIds) (st st' : L)
      (db db' : Directory) (entry : Entry Token)
      → login lockout texts jwt settings revocations secure email password times ids st db
        ≡ (ok entry, (st', db'))
      → LoggedIn email password times ids st db entry st' db'
  unfolding login
  login-LoggedIn email password times ids st st' db db' entry h =
      after_lock-LoggedIn email password times ids st st' db db' entry
        (lockout.is_locked st (lockout_key lockout texts jwt settings revocations secure email)
          times.at_lock)
        refl h

  -- A login that succeeds found an active user with that address and password and an active
  -- membership of theirs; and until the access token that it sets expires, up to the skew, and
  -- while neither it nor its session is revoked, requests with it are made as that user in the
  -- tenant of that membership.
  pub login_identifies :
      (email password : String) (times : LoginTimes) (ids : LoginIds) (st st' : L)
      (db db' : Directory) (entry : Entry Token) (store : Store) (later : Time)
      (request_id : String)
      → login lockout texts jwt settings revocations secure email password times ids st db
        ≡ (ok entry, (st', db'))
      → times.at_issue ≤ later
      → later
        < from_timestamp (timestamp (times.at_issue + settings.access_token_ttl))
          + settings.clock_skew
      → revocations.is_token_revoked store ids.access_id ≡ false
      → revocations.is_session_revoked store ids.session_id ≡ false
      → (subject : TokenSubject) × Admitted texts db email password subject
        × (tenant_context_from_access_token jwt settings revocations store entry.pair.access_token
              request_id later
            ≡ ok (context_for subject request_id))
  login_identifies email password times ids st st' db db' entry store later request_id h begun alive
        token session =
      let facts = login-LoggedIn email password times ids st st' db db' entry h in
      let live =
        subst (λ s. revocations.is_session_revoked store s ≡ false) (sym facts.session_id)
          session in
      (
        facts.subject,
        facts.admitted,
        rw facts.tokens (
            issued_token_identifies jwt settings revocations store facts.subject times.at_issue
              later ids.access_id ids.refresh_id request_id begun alive token live),
      )
