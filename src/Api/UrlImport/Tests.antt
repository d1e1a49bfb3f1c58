-- ===== src/Api/UrlImport/Tests.antt =====
-- Imports over a small network.
use aipy.Prelude.{refl, ap, some, [], ◌+◌, ◌≤◌, ◌≡◌, ◌∷◌}
use aipy.Api.UrlImport.Network.{network, start, inside, story, visited}
use aipy.Api.Errors.{ok}
use aipy.Api.UrlImport.{
  SplitUrl, Event, PageMetadata, fetch_metadata, max_redirects, import_error, extract_metadata,
}
use aipy.Api.UrlImport.Guarded.{IsGuarded, Checked, requests}
use aipy.Api.UrlImport.Hops.{Fetched, fetch_metadata-IsGuarded}
use aipy.Api.UrlImport.Labelled.{IsLabelled, fetch_metadata-IsLabelled}

-- The redirect is followed, and the page named after the last part of its path.
story_imported : fetch_metadata network start [] ≡ (ok story, visited)
unfolding fetch_metadata extract_metadata
story_imported = refl

-- A private host is looked up and not asked.
intranet_refused :
    fetch_metadata network inside []
    ≡ (import_error "出于安全考虑，不能导入内网或保留地址", Event.looked_up "intranet" ∷ [])
unfolding fetch_metadata
intranet_refused = refl

fetch_metadata-IsGuarded_example :
    IsGuarded network (fetch_metadata network start []).1
    × (requests (fetch_metadata network start []).1 ≤ requests [] + (max_redirects + 1))
    × ((page : PageMetadata)
        → (fetch_metadata network start []).0 ≡ ok page
        → Fetched network page (fetch_metadata network start []).1)
fetch_metadata-IsGuarded_example = fetch_metadata-IsGuarded network start [] tt

story_read : (fetch_metadata network start []).0 ≡ ok story
story_read = ap (λ r. r.0) story_imported

fetch_metadata-IsLabelled_example :
    IsLabelled story
    × (f : Fetched network story (fetch_metadata network start []).1) × Checked network f.target
        f.earlier
    × (parts : SplitUrl) × (network.urlsplit f.target ≡ some parts)
    × (parts.hostname ≡ some "www.example")
fetch_metadata-IsLabelled_example = fetch_metadata-IsLabelled network start [] story tt story_read
