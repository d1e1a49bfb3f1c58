-- ===== src/Api/Errors.antt =====
-- apps/api/errors.py, and functions that may raise. A transaction that raises is rolled back, so
-- an error carries no database.
use mathlib.Core.Path.{◌≡◌, refl}
pub use aipy.Prelude.Outcomes.{Outcome, ok, err, ◌>>=◌, ◌>>◌, >>=-eq-ok, >>-eq-ok, ok_inj}
use aipy.Prelude.{ℕ, String, Bool, true, false, Option, none, some, if◌then◌else◌}

pub record ActionError : Type 0 where
  pub status_code : ℕ
  pub code : String
  pub detail : String

-- `as_http_exception` passes the three fields of an `ActionError` on; an `IntegrityError`
-- and a `StaleDataError` that nothing catches, a `ValueError`, a `UrlImportError` and an exception of
-- the HTTP client pass the repositories by. The
-- routes raise an `HTTPException` themselves.
pub data Failure : Type 0 where
  action : ActionError → Failure
  http : ℕ → String → Failure
  integrity_error stale_data : Failure
  value_error : String → Failure
  url_import_error : String → Failure
  transport_error : Failure

abbrev pub Result {ℓ} : Type ℓ → Type ℓ
Result A = Outcome Failure A

-- `raise ActionError(status, code, detail)`
abbrev pub raise {ℓ} : {A : Type ℓ} → ℕ → String → String → Result A
raise status code detail =
    err (Failure.action (record { status_code = status; code = code; detail = detail }))

-- `if test: raise …`
abbrev pub raise_if : Bool → ℕ → String → String → Result (Unit {0})
raise_if test status code detail = if test then raise status code detail else ok tt

-- `if o is None: raise …`
abbrev pub or_raise {ℓ} : {A : Type ℓ} → Option A → ℕ → String → String → Result A
or_raise none status code detail = raise status code detail
or_raise (some a) status code detail = ok a

pub raise_if-eq-ok :
    (test : Bool) (status : ℕ) (code detail : String)
    → raise_if test status code detail ≡ ok tt
    → test ≡ false
raise_if-eq-ok true status code detail h = cc
raise_if-eq-ok false status code detail h = refl

pub or_raise-eq-ok {ℓ} :
    {A : Type ℓ} (o : Option A) (status : ℕ) (code detail : String) {a : A}
    → or_raise o status code detail ≡ ok a
    → o ≡ some a
or_raise-eq-ok none status code detail h = cc
or_raise-eq-ok (some b) status code detail h = cc

-- An exception of the database that nothing catches.
abbrev pub or_failure {ℓ} : {A : Type ℓ} → Failure → Option A → Result A
or_failure failure none = err failure
or_failure failure (some a) = ok a

pub or_failure-eq-ok {ℓ} :
    {A : Type ℓ} (failure : Failure) (o : Option A) {a : A}
    → or_failure failure o ≡ ok a
    → o ≡ some a
or_failure-eq-ok failure none h = cc
or_failure-eq-ok failure (some b) h = cc
