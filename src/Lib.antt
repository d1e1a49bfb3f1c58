-- ===== src/Lib.antt =====
-- Verification of the content-operations platform: who may do what, what an action does to a content
-- run or a human task, and what happens when two callers act at once.
--
-- The program is a FastAPI service (apps/api) over PostgreSQL with one Python package (src/aipy). A
-- request carries a TenantContext (src/aipy/shared/security/context.py). A write action on the boards
-- goes through apps/api/repositories.py: the action must be supported, the If-Match header must carry
-- the version of the row, the policy must allow the action
-- (src/aipy/modules/authorization/service.py), the state machine
-- (src/aipy/modules/content/state_machine.py) plans the transition, the row is changed and flushed
-- under the optimistic lock of src/aipy/shared/db/mixins.py, and the summary of the row goes back.
--
-- Files and what they model:
--   Prelude, Prelude/*: shared notation: Boolean tests, Python sequences, texts, dictionaries,
--     decimal numbers, chains of Option, functions that may raise (Outcomes), ORDER BY and LIMIT
--     (Sorting; its Unique is about what a statement's ORDER BY promises), and the dates of datetime
--     (Calendar; its Months are the months as they are counted).
--   Content/Status: ContentStatus, TaskStatus and TaskDecision with their stored texts.
--   Content/StateMachine: the tables and planners of state_machine.py. ContentSteps and TaskSteps
--     state the table of section 2 of docs/adr/0003-write-actions-and-state.md as relations, Runs the
--     diagram of docs/02-workflow-state-machine.md and, with Restarts, what sequences of actions do.
--     Table and diagram differ, and so do table and code for the submission of an open task.
--   Security: ActorType, ActorContext and TenantContext.
--   Authorization/Permission: Permission; a ValidationError is none.
--   Authorization/Policy: the policy models of authorization/domain/models.py with their validators.
--   Authorization/Service: AuthorizationService, method by method. Scopes, Rules and Decisions prove
--     each test equivalent to a statement of what it means; Isolation is about whole requests.
--   Organization: the rows of tenants, users, members and roles (tenancy/models.py,
--     organization/models.py, authorization/models.py).
--   Authorization/Catalogue: role_catalog.py. Authorization/Repository: policy_repository.py, its
--     queries as functions of the rows; get_policy is what the service takes as its parameter.
--   Identity/Claims: identity/domain/models.py. Identity/Revocations: the port for revocations as an
--     interface with the laws of a store that forgets nothing, and in_memory_revocations.py, which has
--     them; the store on Redis does not, since its entries expire. Identity/Payloads: the payload
--     of a token, and PyJWT as a parameter. Identity/Tokens:
--     JwtTokenService of jwt_tokens.py and the logout of apps/api/routes/auth.py; Verified, Rotation
--     and Issued are about accepted tokens, single use and the end of sessions, and round trips.
--     Identity/Lockout: InMemoryLoginLockout of login_lockout.py. Identity/Redis: redis_revocations.py
--     and RedisLoginLockout, with Redis as a parameter; Expiry and Locks are about how long entries last.
--   Worker: run_content_workflow of apps/worker/tasks.py, one step for each transaction.
--   Api/Errors: ActionError and functions that raise. Api/Rows: the rows of content/models.py.
--   Api/Store: what is asked of SQLAlchemy and PostgreSQL, a record of operations and laws that the
--     handlers take as a parameter; Api/Store/Memory is a table in memory that has the laws.
--     Api/Store/Inserts is the same for tables that rows are added to, and for the tables of content
--     runs together; Lists, Slots, Lenses and Tables are such tables and databases in memory.
--   Api/Preconditions: ensure_supported, parse_expected_version, _require_version,
--     _require_permission and _allowed_actions; TagText and Etags are about entity tags. Api/Boards:
--     _to_content_run and _to_human_task; Offers compares the actions shown with those permitted.
--   Api/Flush: _flush and the commit of a row.
--   Api/ContentActions: apply_content_action for state actions. Api/SideEffects: exports, collections,
--     the link that a user chooses, and the dispatch of apply_content_action; Written, Collected, Links
--     and Dispatch prove what they leave, Downloads is the export history.
--   Api/TaskActions: apply_human_task_action and _apply_assign.
--   Api/Sessions: authenticate and build_session (Accounts), and the routes login and refresh of
--     apps/api/routes/auth.py, over the lockout and the token service; Entered, LockedOut and Refreshed
--     are about their outcomes.
--   Api/Quotas: quota policies, with governance/quota_models.py; Policies are the repositories, and
--     Alerts, Periods and Upserts prove the levels, the periods and the writes.
--   Api/UrlImport: url_import.py over a history of lookups and requests; Guarded and Hops are about which
--     URLs are requested, Labelled about the page that comes back. Api/Uploads: uploads of
--     materials and their download, with the names of files (FileNames) and the unique keys (Store).
--     Api/Creation: create_material and create_content_run. Api/Listings: the lists of the boards, page
--     by page (Pages) and by what they are filtered (Filters), their single rows and their totals
--     (Counts). What a statement's ORDER BY makes of rows with the same seq is its own, and an argument.
--   Api/Fixtures and the files named Tests: data and runs.
--
-- Conventions. A UUID is only compared and is a number; a datetime is a number of microseconds, and
-- the time of a call is an argument. A frozenset is a list of which only the members matter. A handler
-- reads in one transaction and flushes at its end; since other transactions may commit in between, a
-- handler is a plan and a commit, and an interleaving is a commit of another plan between them. The
-- lists take what their ORDER BY answers as an argument; the other statements with an ORDER BY (a
-- collection, the last export, the workspaces of a session) are run once, and answer rows with equal
-- keys in the order of the table, one of the orders that the database may choose. No
-- definition needs fuel but the printer of decimals, which has as much as the number it prints plus
-- one.
--
-- PyJWT is a parameter (JwtLibrary of Identity/Payloads: what was encoded decodes under the same secret,
-- for its issuer and audience), and so are Redis (Identity/Redis: expiry, SET NX, INCR), zoneinfo (Zones
-- of Api/Quotas), ILIKE (in ContentStore of Api/Store/Inserts), password hashing, equality of CITEXT
-- columns and str.lower (Texts of Api/Sessions/Accounts), the model gateway of Worker, and the network, httpx,
-- urlsplit, the regular expressions, html.unescape and ipaddress (Web of Api/UrlImport).
--
-- Not modelled: SQL, sessions and row-level security beyond the laws of Api/Store;
-- passwords and signatures; the decoding of bytes; members, roles and routing in
-- apps/api/repositories.py; HTTP and its schemas; migrations and scripts.
pub mod Prelude
pub mod Content
pub mod Security
pub mod Organization
pub mod Authorization
pub mod Api
pub mod Identity
pub mod Worker
