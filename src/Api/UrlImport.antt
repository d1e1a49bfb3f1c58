-- ===== src/Api/UrlImport.antt =====
-- The import of a page by its URL: apps/api/url_import.py. The network, the resolver, httpx, and of
-- Python's library the URL parser, the regular expressions, `html.unescape` and `ipaddress` are the
-- parameter `web`. The answers of the network depend on all that was asked of it before, so the
-- history of lookups and requests is the state, the newest first.
pub mod Guarded
pub mod Hops
pub mod Labelled
pub mod Network
mod Tests
use aipy.Prelude.{
  ℕ, zero, suc, String, Bool, not, Option, none, some, List, [], ◌+◌, ◌∷◌, ◌++◌, ◌==◌,
  if◌then◌else◌, leb, length, contains, is_blank, or_else, given, fstring, strip, take_text,
  after_last, string_eq, nat_eq,
}
use Prim.Native.Char.{Char, code}
use aipy.Prelude.Decimal.{decimal}
use aipy.Api.Errors.{Result, Failure, ok, err}

pub data Event : Type 0 where
  looked_up : String → Event
  requested : String → Event

abbrev pub History : Type 0
History = List Event

pub record SplitUrl : Type 0 where
  pub scheme : String
  pub hostname : Option String
  pub path : String

-- What is read of `httpx.Response`; the body is the chunks of `iter_bytes`.
pub record Response : Type 0 where
  pub is_redirect : Bool
  pub location : Option String
  pub status_code : ℕ
  pub encoding : Option String
  pub chunks : List (List ℕ)

pub record Web (Address : Type 0) : Type 0 where
  -- `none` is a `ValueError`.
  pub urlsplit : String → Option SplitUrl
  -- `none` is a `gaierror`.
  pub getaddrinfo : History → String → Option (List Address)
  pub ipv4_mapped : Address → Option Address
  pub is_global : Address → Bool
  -- `client.get(target)` without redirects; `none` is an exception of httpx.
  pub get : History → String → Option Response
  -- `str(httpx.URL(target).join(location))`; `none` is an `InvalidURL`.
  pub join : String → String → Option String
  -- The first group of the first match of `_TITLE`, `_DESCRIPTION` and `_DESCRIPTION_REVERSED`.
  pub search_title : String → Option String
  pub search_description : String → Option String
  pub search_description_reversed : String → Option String
  -- `_TAG.sub(" ", value)`, `html.unescape`, `_WHITESPACE.sub(" ", value)`
  pub sub_tags : String → String
  pub unescape : String → String
  pub sub_whitespace : String → String
  -- `raw.decode(encoding, errors="replace")`
  pub decode : List ℕ → String → String

pub record PageMetadata : Type 0 where
  pub title : String
  pub description : String
  pub host : String

abbrev pub max_bytes : ℕ
max_bytes = 262144

abbrev pub max_redirects : ℕ
max_redirects = 5

abbrev pub import_error : {A : Type 0} → String → Result A
import_error message = err (Failure.url_import_error message)

-- The loop of `_read_capped`, from the size read so far.
unfoldable pub read_chunks : ℕ → List (List ℕ) → List ℕ
read_chunks size [] = []
read_chunks size (chunk ∷ chunks) =
    let rest = read_chunks (size + length chunk) chunks in
    if leb max_bytes (size + length chunk) then chunk else chunk ++ rest

module _ {Address : Type 0} (web : Web Address) where
  -- `_text`
  abbrev pub clean : String → String
  clean value = strip (web.sub_whitespace (web.unescape (web.sub_tags value)))

  -- `_text(match.group(1)) if match else ""`
  abbrev pub group_text : Option String → String
  group_text none = ""
  group_text (some value) = clean value

  abbrev pub or_match : Option String → Option String → Option String
  or_match none second = second
  or_match (some value) second = some value

  abbrev pub is_slash : Char → Bool
  is_slash c = code c == b'/'

  abbrev pub metadata_of : String → String → SplitUrl → PageMetadata
  metadata_of document url parts =
      let host = given parts.hostname url in
      let label = or_else (clean (after_last is_slash parts.path)) host in
      let description =
        or_match (web.search_description document) (web.search_description_reversed document) in
      record {
        title = take_text 255 (or_else (group_text (web.search_title document)) label);
        description = take_text 4000 (group_text description);
        host = host;
      }

  abbrev pub metadata_or_raise : String → String → Option SplitUrl → Result PageMetadata
  metadata_or_raise document url none = err (Failure.value_error "Invalid URL")
  metadata_or_raise document url (some parts) = ok (metadata_of document url parts)

  unfoldable pub extract_metadata : String → String → Result PageMetadata
  extract_metadata document url = metadata_or_raise document url (web.urlsplit url)

  abbrev pub unmapped : Address → Address
  unmapped address = elim (web.ipv4_mapped address) [ none ↦ address | some mapped ↦ mapped ]

  abbrev pub assert_global : List Address → Result (Unit {0})
  assert_global [] = ok tt
  assert_global (address ∷ addresses) =
      if not (web.is_global (unmapped address))
      then import_error "出于安全考虑，不能导入内网或保留地址"
      else assert_global addresses

  abbrev pub assert_resolved : String → Option (List Address) → Result (Unit {0})
  assert_resolved host none = import_error (fstring ("无法解析主机名：" ∷ host ∷ []))
  assert_resolved host (some infos) = assert_global infos

  abbrev pub assert_host : Option String → History → Result (Unit {0}) × History
  assert_host none past = (import_error "链接缺少主机名", past)
  assert_host (some host) past =
      if is_blank host
      then (import_error "链接缺少主机名", past)
      else (assert_resolved host (web.getaddrinfo past host), Event.looked_up host ∷ past)

  abbrev pub assert_parts : Option SplitUrl → History → Result (Unit {0}) × History
  assert_parts none past = (err (Failure.value_error "Invalid URL"), past)
  assert_parts (some parts) past =
      if not (contains ("http" ∷ "https" ∷ []) parts.scheme)
      then (import_error "仅支持 http 或 https 链接", past)
      else assert_host parts.hostname past

  unfoldable pub assert_public_url : String → History → Result (Unit {0}) × History
  assert_public_url url past = assert_parts (web.urlsplit url) past

  -- `_read_capped`
  unfoldable pub read_capped : Response → String
  unfolding read_chunks
  read_capped response =
      web.decode (read_chunks 0 response.chunks) (given response.encoding "utf-8")

  module _ (next : String → History → Result PageMetadata × History) (target : String) where
    abbrev pub joined : Option String → History → Result PageMetadata × History
    joined none past = (err Failure.transport_error, past)
    joined (some url) past = next url past

    abbrev pub follow : Option String → History → Result PageMetadata × History
    follow none past = (import_error "目标站点返回了无目标的重定向", past)
    follow (some location) past =
        if is_blank location
        then (import_error "目标站点返回了无目标的重定向", past)
        else joined (web.join target location) past

    abbrev pub after_get : Option Response → History → Result PageMetadata × History
    after_get none past = (err Failure.transport_error, past)
    after_get (some response) past =
        if response.is_redirect
        then follow response.location past
        else if leb 400 response.status_code
        then (import_error (fstring ("目标站点返回状态码 " ∷ decimal response.status_code ∷ [])), past)
        else (extract_metadata (read_capped response) target, past)

    abbrev pub after_check : Result (Unit {0}) × History → Result PageMetadata × History
    after_check (err failure, past) = (err failure, past)
    after_check (ok _, past) = after_get (web.get past target) (Event.requested target ∷ past)

  -- The loop of `fetch_metadata`, with the rounds that are left.
  unfoldable pub fetch_rounds : ℕ → String → History → Result PageMetadata × History
  unfolding assert_public_url
  fetch_rounds zero target past = (import_error "重定向次数过多", past)
  fetch_rounds (suc rounds) target past =
      after_check (fetch_rounds rounds) target (assert_public_url target past)

  unfoldable pub fetch_metadata : String → History → Result PageMetadata × History
  unfolding fetch_rounds
  fetch_metadata url past = fetch_rounds (max_redirects + 1) url past
