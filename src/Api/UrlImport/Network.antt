-- ===== src/Api/UrlImport/Network.antt =====
-- Test data: a small network.
use aipy.Prelude.{
  ℕ, String, true, false, Option, none, some, [], ◌∷◌, ◌==◌, if◌then◌else◌, string_eq, nat_eq,
}
use aipy.Api.UrlImport.{Web, History, SplitUrl, Event, Response, PageMetadata}

abbrev pub start : String
start = "https://news.example/go"

abbrev pub article : String
article = "https://www.example/a/story"

abbrev pub inside : String
inside = "http://intranet/"

-- Three hosts: the first redirects to the second, and the third is a private one.
abbrev pub split : String → Option SplitUrl
split url =
    if url == start
    then some (record { scheme = "https"; hostname = some "news.example"; path = "/go" })
    else if url == article
    then some (record { scheme = "https"; hostname = some "www.example"; path = "/a/story" })
    else if url == inside
    then some (record { scheme = "http"; hostname = some "intranet"; path = "/" })
    else none

abbrev pub redirect : Response
redirect = record {
  is_redirect = true;
  location = some "/a/story";
  status_code = 302;
  encoding = none;
  chunks = [];
}

abbrev pub plain : Response
plain = record {
  is_redirect = false;
  location = none;
  status_code = 200;
  encoding = none;
  chunks = (72 ∷ 105 ∷ []) ∷ [];
}

abbrev pub network : Web ℕ
network = record {
  urlsplit = split;
  getaddrinfo = λ past host. if host == "intranet" then some (10 ∷ []) else some (8 ∷ []);
  ipv4_mapped = λ a. none;
  is_global = λ a. a == 8;
  get = λ past url. if url == start then some redirect else some plain;
  join = λ url location. some article;
  search_title = λ document. none;
  search_description = λ document. none;
  search_description_reversed = λ document. some "About  it";
  sub_tags = λ s. s;
  unescape = λ s. s;
  sub_whitespace = λ s. s;
  decode = λ bytes encoding. "Hi";
}

abbrev pub story : PageMetadata
story = record { title = "story"; description = "About  it"; host = "www.example" }

abbrev pub visited : History
visited =
    Event.requested article
    ∷ Event.looked_up "www.example"
    ∷ Event.requested start
    ∷ Event.looked_up "news.example"
    ∷ []
