-- ===== src/Identity/Tokens/Tests.antt =====
-- A session on the store in memory: a token is used, rotated, and the session ends.
use aipy.Prelude.{refl, false, none, some, [], ◌≡◌, ◌∷◌}
use aipy.Prelude.Outcomes.{ok}
use aipy.Security.{ActorType}
use aipy.Identity.Claims.{
  make_settings, TokenSubject, AccessTokenClaims, RefreshTokenClaims, TokenPair,
}
use aipy.Identity.Revocations.InMemory.{InMemoryRevocations, no_revocations, in_memory}
use aipy.Identity.Fixtures.{ToyToken, toy, settings}
use aipy.Identity.Tokens.{
  new_access_claims, new_refresh_claims, issue_token_pair, decode_refresh, verify_access_token,
  rotate_token_pair, logout,
}
use aipy.Identity.Tokens.Verified.{Verified, verify_access_token-ok}
use aipy.Identity.Tokens.Rotation.{Rotated, rotate_token_pair-ok}
use aipy.Identity.Tokens.Issued.{in_seconds}

abbrev who : TokenSubject
who = record {
  tenant_id = 1;
  actor_id = 7;
  actor_type = ActorType.user;
  session_id = 40;
  role_ids = [];
  team_ids = [];
  workspace_ids = [];
}

abbrev pair : TokenPair ToyToken
pair = issue_token_pair toy settings in_memory who 1000000000 501 502

abbrev next_pair : TokenPair ToyToken
next_pair = issue_token_pair toy settings in_memory who 1300000000 503 504

abbrev claims : AccessTokenClaims
claims = in_seconds (new_access_claims toy settings in_memory who 1000000000 501)

abbrev for_refresh : RefreshTokenClaims
for_refresh = new_refresh_claims toy settings in_memory who 1000000000 502

abbrev used : InMemoryRevocations
used = record { tokens = 502 ∷ []; sessions = [] }

verified_later :
    verify_access_token toy settings in_memory no_revocations pair.access_token 1200000000
    ≡ ok claims
unfolding verify_access_token in_memory
verified_later = refl

decoded_refresh :
    decode_refresh toy settings in_memory pair.refresh_token 1200000000 ≡ ok for_refresh
unfolding decode_refresh
decoded_refresh = refl

rotated :
    rotate_token_pair toy settings in_memory no_revocations pair.refresh_token who 1200000000
      1300000000 503 504
    ≡ (ok next_pair, used)
unfolding rotate_token_pair in_memory aipy.Identity.Revocations.InMemory.consume_refresh_token
rotated = refl

not_revoked : in_memory.is_token_revoked no_revocations 501 ≡ false
unfolding in_memory
not_revoked = refl

not_ended : in_memory.is_session_revoked no_revocations 40 ≡ false
unfolding in_memory
not_ended = refl

abbrev visitor : TokenSubject
visitor = record who { session_id = 41 }

abbrev visit : TokenPair ToyToken
visit = issue_token_pair toy settings in_memory visitor 1000000000 601 602

abbrev visit_claims : AccessTokenClaims
visit_claims = in_seconds (new_access_claims toy settings in_memory visitor 1000000000 601)

visit_goes_on :
    verify_access_token toy settings in_memory
      (logout toy settings in_memory no_revocations
        (some pair.access_token)
        (some pair.refresh_token)
        1200000000
        1200000000)
      visit.access_token
      1200000000
    ≡ ok visit_claims
unfolding verify_access_token in_memory logout
visit_goes_on = refl

verify_access_token-ok_example :
    Verified toy settings in_memory no_revocations pair.access_token 1200000000 claims
verify_access_token-ok_example =
    verify_access_token-ok toy settings in_memory no_revocations pair.access_token 1200000000 claims
      verified_later

rotate_token_pair-ok_example :
    Rotated toy settings in_memory no_revocations pair.refresh_token who 1300000000 503 504
      next_pair used
rotate_token_pair-ok_example =
    rotate_token_pair-ok toy settings in_memory no_revocations used pair.refresh_token who
      1200000000 1300000000 503 504 next_pair rotated

settings_valid_test : make_settings settings ≡ some settings
unfolding make_settings
settings_valid_test = refl

short_secret_test : make_settings (record settings { secret_key = "secret" }) ≡ none
unfolding make_settings
short_secret_test = refl
