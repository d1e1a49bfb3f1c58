-- ===== src/Api/UrlImport/Hops.antt =====
-- The loop over the redirects of an import: `fetch_metadata` of apps/api/url_import.py.
use aipy.Prelude.{
  ℕ, zero, suc, String, refl, inl, inr, false, Option, none, some, arith, ◌+◌, ◌≤◌, ◌<◌, ◌≡◌, ◌∷◌,
  leb, Bool-cases, is_blank, string_eq, nat_eq,
}
use aipy.Api.UrlImport.{
  Web, History, Event, Response, PageMetadata, extract_metadata, read_capped, joined, follow,
  after_get, fetch_rounds, fetch_metadata, max_redirects,
}
use aipy.Api.UrlImport.Guarded.{
  IsGuarded, Public, requests, assert_public_url-Asserted, passed, refused, refused_host,
}
use aipy.Api.Errors.{Result, Failure, ok, err}

module _ {Address : Type 0} (web : Web Address) where
  -- The page is what was read of the answer to the newest request.
  pub record Fetched (page : PageMetadata) (after : History) : Type 0 where
    pub target : String
    pub earlier : History
    pub response : Response
    pub newest : after ≡ Event.requested target ∷ earlier
    pub answered : web.get earlier target ≡ some response
    pub final : response.is_redirect ≡ false
    pub fine : response.status_code < 400
    pub read : extract_metadata web (read_capped web response) target ≡ ok page

  pub record Visit (rounds : ℕ) (past : History) (r : Result PageMetadata × History) : Type 0 where
    pub guarded : IsGuarded web past → IsGuarded web r.1
    pub few : requests r.1 ≤ requests past + rounds
    pub fetched : (page : PageMetadata) → r.0 ≡ ok page → Fetched page r.1

  raised :
      (rounds : ℕ) (past after : History) (failure : Failure)
      → (IsGuarded web past → IsGuarded web after)
      → requests after ≤ requests past + rounds
      → Visit rounds past (err failure, after)
  raised rounds past after failure guarded few = record {
    guarded = guarded;
    few = few;
    fetched = λ page h. absurd cc;
  }

  module _ (rounds : ℕ) (next : String → History → Result PageMetadata × History) (target : String)
      (past : History)
      (ih : (url : String)
        → Visit rounds
            (Event.requested target ∷ past)
            (next url (Event.requested target ∷ past))) where
    abbrev asked : History
    asked = Event.requested target ∷ past

    stopped : (failure : Failure) → Visit rounds asked (err failure, asked)
    stopped failure = raised rounds asked asked failure (λ g. g) (omega arith)

    joined-Visit : (o : Option String) → Visit rounds asked (joined web next target o asked)
    joined-Visit none = stopped _
    joined-Visit (some url) = ih url

    follow-Visit : (o : Option String) → Visit rounds asked (follow web next target o asked)
    follow-Visit none = stopped _
    follow-Visit (some location) = elim (Bool-cases (is_blank location)) [
      | inl blank ↦ rw blank (stopped _)
      | inr named ↦ rw named (joined-Visit (web.join target location))
    ]

    after_get-Visit :
        (o : Option Response)
        → web.get past target ≡ o
        → Visit rounds asked (after_get web next target o asked)
    unfolding read_capped
    after_get-Visit none is = stopped _
    after_get-Visit (some response) is = elim (Bool-cases response.is_redirect) [
      | inl redirect ↦ rw redirect (follow-Visit response.location)
      | inr final ↦ rw final (elim (Bool-cases (leb 400 response.status_code)) [
        | inl bad ↦ rw bad (stopped _)
        | inr fine ↦ rw fine (record {
          guarded = λ g. g;
          few = omega arith;
          fetched = λ page h. record {
            target = target;
            earlier = past;
            response = response;
            newest = refl;
            answered = is;
            final = final;
            fine = ground arith;
            read = h;
          };
        })
      ])
    ]

  -- A public target is requested, and the loop goes on from there.
  asked_public :
      (rounds : ℕ) (past : History) (target : String) (p : Public web past target)
      (r : Result PageMetadata × History)
      → Visit rounds (Event.requested target ∷ Event.looked_up p.host ∷ past) r
      → Visit (suc rounds) past r
  asked_public rounds past target p r v = record {
    guarded = λ g. v.guarded ((p, refl), g);
    few = omega (arith, v.few);
    fetched = v.fetched;
  }

  pub fetch_rounds-Visit :
      (rounds : ℕ) (target : String) (past : History)
      → Visit rounds past (fetch_rounds web rounds target past)
  unfolding fetch_rounds
  fetch_rounds-Visit zero target past = raised zero past past _ (λ g. g) (omega arith)
  fetch_rounds-Visit (suc rounds) target past = elim (assert_public_url-Asserted web target past) [
    | passed p is ↦ rw is (
        asked_public rounds past target p _ (
          after_get-Visit rounds (fetch_rounds web rounds) target (Event.looked_up p.host ∷ past)
            (λ url.
              fetch_rounds-Visit rounds url
                (Event.requested target ∷ Event.looked_up p.host ∷ past))
            (web.get (Event.looked_up p.host ∷ past) target) refl))
    | refused e is ↦ rw is (raised (suc rounds) past past e (λ g. g) (omega arith))
    | refused_host e host is ↦
        rw is (raised (suc rounds) past (Event.looked_up host ∷ past) e (λ g. g) (omega arith))
  ]

  -- If each request so far was for a URL whose host had just been looked up and had only public
  -- addresses, the same holds after an import, which makes at most six requests more; and a page
  -- that it answers was read from the answer to its last request, which is no redirect and has a
  -- status below 400.
  pub fetch_metadata-IsGuarded :
      (url : String) (past : History)
      → IsGuarded web past
      → IsGuarded web (fetch_metadata web url past).1
        × (requests (fetch_metadata web url past).1 ≤ requests past + (max_redirects + 1))
        × ((page : PageMetadata)
            → (fetch_metadata web url past).0 ≡ ok page
            → Fetched page (fetch_metadata web url past).1)
  unfolding fetch_metadata
  fetch_metadata-IsGuarded url past h =
      let v = fetch_rounds-Visit (max_redirects + 1) url past in (v.guarded h, v.few, v.fetched)
