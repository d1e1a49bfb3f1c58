-- ===== src/Identity/Fixtures.antt =====
-- Test data: PyJWT played by tokens that carry their payload, secret and algorithm.
use aipy.Prelude.{
  String, refl, subst, Bool, true, false, Option, none, some, arith, eq_iff, eq_refl, ◌≡◌, ◌&&◌,
  ◌==◌, if◌then◌else◌, string_eq, nat_eq,
}
use aipy.Identity.Claims.{JwtTokenSettings}
use aipy.Identity.Payloads.{Payload, JwtLibrary}

-- `none` is the empty text.
abbrev pub ToyToken : Type 0
ToyToken = Option (Payload × String × String)

abbrev pub toy_empty : ToyToken → Bool
toy_empty none = true
toy_empty (some t) = false

abbrev pub toy_decode : ToyToken → String → String → String → String → Option Payload
toy_decode none secret algorithm issuer audience = none
toy_decode (some (p, s, a)) secret algorithm issuer audience =
    if s == secret && (a == algorithm && (p.iss == issuer && p.aud == audience))
    then some p
    else none

pub toy_decode-encode :
    (p : Payload) (secret algorithm : String)
    → toy_decode (some (p, secret, algorithm)) secret algorithm p.iss p.aud ≡ some p
toy_decode-encode p secret algorithm =
    rw (eq_refl secret, eq_refl algorithm, eq_refl p.iss, eq_refl p.aud) refl

pub toy_decode-checks :
    (token : ToyToken) (secret algorithm issuer audience : String) (p : Payload)
    → toy_decode token secret algorithm issuer audience ≡ some p
    → (p.iss ≡ issuer) × (p.aud ≡ audience)
toy_decode-checks none secret algorithm issuer audience p h = cc
toy_decode-checks (some (q, s, a)) secret algorithm issuer audience p h =
    let same : q ≡ p = ground (arith, h) in
    let issued : (q.iss == issuer) ≡ true = ground (arith, h) in
    let meant : (q.aud == audience) ≡ true = ground (arith, h) in
    (
      subst (λ (x : Payload). x.iss ≡ issuer) same ((eq_iff q.iss issuer).0 issued),
      subst (λ (x : Payload). x.aud ≡ audience) same ((eq_iff q.aud audience).0 meant),
    )

abbrev pub toy : JwtLibrary ToyToken
toy = record {
  empty = toy_empty;
  encode = λ p secret algorithm. some (p, secret, algorithm);
  decode = toy_decode;
  encode_not_empty = λ p secret algorithm. refl;
  decode_encode = toy_decode-encode;
  decode_checks = toy_decode-checks;
}

-- Fifteen minutes, fourteen days and thirty seconds.
abbrev pub settings : JwtTokenSettings
settings = record {
  secret_key = "0123456789abcdef0123456789abcdef";
  issuer = "aipy";
  audience = "aipy-web";
  algorithm = "HS256";
  access_token_ttl = 900000000;
  refresh_token_ttl = 1209600000000;
  clock_skew = 30000000;
}
