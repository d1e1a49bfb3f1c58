-- ===== src/Api/UrlImport/Labelled.antt =====
-- What an import answers: apps/api/url_import.py.
use aipy.Prelude.{
  String, refl, sym, ap, subst, inl, inr, false, Option, none, some, [], ◌≤◌, ◌≡◌, ◌∙◌, ◌∷◌,
  Option-cases, is_blank, or_else, given, text_length, text_length-take_text, is_blank-take_text,
  is_blank-or_else, after_last,
}
use aipy.Api.UrlImport.{
  Web, History, SplitUrl, Event, PageMetadata, extract_metadata, read_capped, fetch_metadata,
  metadata_of, clean, is_slash, group_text, or_match,
}
use aipy.Api.UrlImport.Guarded.{IsGuarded, Checked}
use aipy.Api.UrlImport.Hops.{Fetched, fetch_metadata-IsGuarded}
use aipy.Prelude.Options.{some_inj}
use aipy.Api.Errors.{ok, ok_inj}

-- A title that is not empty and fits the column, and a host.
pub record IsLabelled (page : PageMetadata) : Type 0 where
  pub titled : is_blank page.title ≡ false
  pub hosted : is_blank page.host ≡ false
  pub title_fits : text_length page.title ≤ 255
  pub description_fits : text_length page.description ≤ 4000

module _ {Address : Type 0} (web : Web Address) where
  is_blank-given :
      (o : Option String) (host s : String)
      → o ≡ some host
      → is_blank host ≡ false
      → given o s ≡ host
  is_blank-given none host s h k = absurd cc
  is_blank-given (some t) host s h k = let is : t ≡ host = cc in rw (is, k) refl

  metadata_of-IsLabelled :
      (document url : String) (parts : SplitUrl) (host : String)
      → parts.hostname ≡ some host
      → is_blank host ≡ false
      → IsLabelled (metadata_of web document url parts)
        × ((metadata_of web document url parts).host ≡ host)
  metadata_of-IsLabelled document url parts host is named =
      let e = is_blank-given parts.hostname host url is named in
      let hosted : is_blank (given parts.hostname url) ≡ false = rw e named in
      let tail = clean web (after_last (is_slash web) parts.path) in
      let labelled = is_blank-or_else tail (given parts.hostname url) hosted in
      let title = group_text web (web.search_title document) in
      let label = or_else tail (given parts.hostname url) in
      let described = group_text web (
        or_match web (web.search_description document)
          (web.search_description_reversed document)) in
      (
        record {
          titled =
              is_blank-take_text 254 (or_else title label) (is_blank-or_else title label labelled);
          hosted = hosted;
          title_fits = text_length-take_text 255 (or_else title label);
          description_fits = text_length-take_text 4000 described;
        },
        e,
      )

  checked_host :
      (url : String) (past : History) (parts : SplitUrl)
      → Checked web url past
      → web.urlsplit url ≡ some parts
      → (host : String) × (parts.hostname ≡ some host) × (is_blank host ≡ false)
  checked_host url [] parts h is = elim h [ ]
  checked_host url (Event.requested other ∷ past) parts h is = elim h [ ]
  checked_host url (Event.looked_up host ∷ past) parts (p, same) is =
      let e : p.parts ≡ parts = some_inj (sym p.split ∙ is) in
      (p.host, subst (λ (q : SplitUrl). q.hostname ≡ some p.host) e p.hostname, p.named)

  -- A page that an import answers has a title that is not empty, a title and a description within
  -- their columns, and the host of the URL last requested, which had just been found public, if all
  -- earlier requests were guarded too.
  pub fetch_metadata-IsLabelled :
      (url : String) (past : History) (page : PageMetadata)
      → IsGuarded web past
      → (fetch_metadata web url past).0 ≡ ok page
      → IsLabelled page
        × (f : Fetched web page (fetch_metadata web url past).1) × Checked web f.target f.earlier
        × (parts : SplitUrl) × (web.urlsplit f.target ≡ some parts)
        × (parts.hostname ≡ some page.host)
  unfolding extract_metadata
  fetch_metadata-IsLabelled url past page g h =
      let (guarded, few, fetched) = fetch_metadata-IsGuarded web url past g in
      let f = fetched page h in
      let (checked, rest) = subst (IsGuarded web) f.newest guarded in
      elim (Option-cases (web.urlsplit f.target)) [
        | inl e ↦ absurd (cc (rw e at f.read))
        | inr (parts, e) ↦
            let (host, is, named) = checked_host f.target f.earlier parts checked e in
            let same = ok_inj (rw e at f.read) in
            let (labelled, hosted) =
              metadata_of-IsLabelled (read_capped web f.response) f.target parts host is named in
            (
              subst IsLabelled same labelled,
              f,
              checked,
              parts,
              e,
              is ∙ ap some (sym hosted ∙ ap (λ (p : PageMetadata). p.host) same),
            )
      ]
