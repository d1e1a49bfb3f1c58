-- ===== src/Identity/Revocations/InMemory.antt =====
-- `InMemoryTokenRevocations` of src/aipy/modules/identity/infrastructure/in_memory_revocations.py.
-- A set is a list of its members.
use aipy.Prelude.{
  refl, inl, inr, Bool, true, false, not, List, [], ◌≡◌, ◌∷◌, if◌then◌else◌, Bool-cases, contains,
  contains_iff, string_eq, nat_eq,
}
use aipy.Security.{Uuid}
use aipy.Identity.Claims.{TokenRevocation, SessionRevocation}
use aipy.Identity.Revocations.{RevocationRepository}

pub record InMemoryRevocations : Type 0 where
  pub tokens : List Uuid
  pub sessions : List Uuid

abbrev pub no_revocations : InMemoryRevocations
no_revocations = record { tokens = []; sessions = [] }

abbrev pub is_token_revoked : InMemoryRevocations → Uuid → Bool
is_token_revoked st id = contains st.tokens id

abbrev pub is_session_revoked : InMemoryRevocations → Uuid → Bool
is_session_revoked st id = contains st.sessions id

abbrev pub revoke_token : InMemoryRevocations → TokenRevocation → InMemoryRevocations
revoke_token st r = record st { tokens = r.token_id ∷ st.tokens }

unfoldable pub consume_refresh_token :
    InMemoryRevocations → TokenRevocation → Bool × InMemoryRevocations
consume_refresh_token st r =
    if contains st.tokens r.token_id
    then (false, st)
    else (true, record st { tokens = r.token_id ∷ st.tokens })

abbrev pub revoke_session : InMemoryRevocations → SessionRevocation → InMemoryRevocations
revoke_session st r = record st { sessions = r.session_id ∷ st.sessions }

pub contains-head : (id : Uuid) (ids : List Uuid) → contains (id ∷ ids) id ≡ true
contains-head id ids = (contains_iff (id ∷ ids) id).1 (inl refl)

pub contains-tail :
    (x id : Uuid) (ids : List Uuid) → contains ids id ≡ true → contains (x ∷ ids) id ≡ true
contains-tail x id ids h = (contains_iff (x ∷ ids) id).1 (inr ((contains_iff ids id).0 h))

pub consume-once :
    (st : InMemoryRevocations) (r : TokenRevocation)
    → (consume_refresh_token st r).0 ≡ not (is_token_revoked st r.token_id)
unfolding consume_refresh_token
consume-once st r = elim (Bool-cases (contains st.tokens r.token_id)) [
  | inl e ↦ rw e refl
  | inr e ↦ rw e refl
]

pub consume-revokes :
    (st : InMemoryRevocations) (r : TokenRevocation)
    → is_token_revoked (consume_refresh_token st r).1 r.token_id ≡ true
unfolding consume_refresh_token
consume-revokes st r = elim (Bool-cases (contains st.tokens r.token_id)) [
  | inl e ↦ rw e e
  | inr e ↦ rw e (contains-head r.token_id st.tokens)
]

pub consume-keeps :
    (st : InMemoryRevocations) (r : TokenRevocation) (id : Uuid)
    → is_token_revoked st id ≡ true
    → is_token_revoked (consume_refresh_token st r).1 id ≡ true
unfolding consume_refresh_token
consume-keeps st r id h = elim (Bool-cases (contains st.tokens r.token_id)) [
  | inl e ↦ rw e h
  | inr e ↦ rw e (contains-tail r.token_id id st.tokens h)
]

unfoldable pub in_memory : RevocationRepository InMemoryRevocations
in_memory = record {
  is_token_revoked = is_token_revoked;
  is_session_revoked = is_session_revoked;
  revoke_token = revoke_token;
  consume_refresh_token = consume_refresh_token;
  revoke_session = revoke_session;
  consume_once = consume-once;
  consume_revokes = consume-revokes;
  revoke_token_revokes = λ st r. contains-head r.token_id st.tokens;
  revoke_session_revokes = λ st r. contains-head r.session_id st.sessions;
  consume_keeps = consume-keeps;
  revoke_token_keeps = λ st r id h. contains-tail r.token_id id st.tokens h;
  revoke_session_keeps = λ st r id h. h;
}
