-- ===== src/Api/Listings/Filters.antt =====
-- What the filters of the lists of apps/api/repositories.py ask for.
use aipy.Prelude.{
  String, refl, sym, ap, subst, inl, inr, Bool, true, Option, none, some, List, [], eq_iff, ◌≡◌,
  ◌∙◌, ◌≢◌, ◌⊎◌, ◌∷◌, nat_eq, Bool-cases, Decides, or_Decides, and_Decides, id_Decides, holds_iff,
  keep, is_blank, fstring, strip,
}
use aipy.Prelude.Options.{some_inj}
use aipy.Security.{Uuid}
use aipy.Api.Rows.{ContentRun, HumanTask, Material}
use aipy.Api.SideEffects.{escape_like}
use aipy.Api.Listings.{
  stripped, unless, nonempty, searched, run_listed, task_listed, material_listed,
}

-- The rows that fit, in the order of the rows.
pub data Filtered {A : Type 0} (Fits : A → Type 0) : List A → List A → Type 0 where
  done : Filtered Fits [] []
  fits : {x : A} {xs ys : List A} → Fits x → Filtered Fits xs ys → Filtered Fits (x ∷ xs) (x ∷ ys)
  fits_not : {x : A} {xs ys : List A} → ¬ Fits x → Filtered Fits xs ys → Filtered Fits (x ∷ xs) ys

pub keep-Filtered :
    {A : Type 0} (Fits : A → Type 0) (test : A → Bool) (xs : List A)
    → ((x : A) → Decides (test x) (Fits x))
    → Filtered Fits xs (keep test xs)
keep-Filtered Fits test [] d = done
keep-Filtered Fits test (x ∷ xs) d = elim (Bool-cases (test x)) [
  | inl e ↦ rw e (fits ((d x).0 e) (keep-Filtered Fits test xs d))
  | inr e ↦ rw e (fits_not (λ h. cc ((d x).1 h)) (keep-Filtered Fits test xs d))
]

is_blank_iff : (s : String) → Decides (is_blank s) (s ≡ "")
is_blank_iff String.[] = (λ h. refl, λ h. refl)
is_blank_iff (String.◌∷◌ c s) = (λ h. cc, λ h. cc)

-- A filter that is given without blanks around it, and is not empty then.
abbrev GivenStripped : Option String → (String → Type 0) → Type 0
GivenStripped o T = (text : String) → o ≡ some text → strip text ≢ "" → T (strip text)

abbrev GivenNonempty : Option String → (String → Type 0) → Type 0
GivenNonempty o T = (text : String) → o ≡ some text → text ≢ "" → T text

stripped_Decides :
    (o : Option String) (test : String → Bool) (T : String → Type 0)
    → ((s : String) → Decides (test s) (T s))
    → Decides (unless (stripped o) test) (GivenStripped o T)
stripped_Decides none test T d = (λ h s e k. cc, λ h. refl)
stripped_Decides (some t) test T d = elim (Bool-cases (is_blank (strip t))) [
  | inl e ↦
      let empty = (is_blank_iff (strip t)).0 e in
      rw e (λ h s k filled. absurd (filled (ap strip (some_inj (sym k)) ∙ empty)), λ h. refl)
  | inr e ↦ rw e (
    λ h s k filled. subst (λ u. T (strip u)) (some_inj k) ((d (strip t)).0 h),
    λ h. (d (strip t)).1 (h t refl (λ k. cc ((is_blank_iff (strip t)).1 k))),
  )
]

nonempty_Decides :
    (o : Option String) (test : String → Bool) (T : String → Type 0)
    → ((s : String) → Decides (test s) (T s))
    → Decides (unless (nonempty o) test) (GivenNonempty o T)
nonempty_Decides none test T d = (λ h s e k. cc, λ h. refl)
nonempty_Decides (some t) test T d = elim (Bool-cases (is_blank t)) [
  | inl e ↦
      let empty = (is_blank_iff t).0 e in
      rw e (λ h s k filled. absurd (filled (some_inj (sym k) ∙ empty)), λ h. refl)
  | inr e ↦ rw e (
    λ h s k filled. subst T (some_inj k) ((d t).0 h),
    λ h. (d t).1 (h t refl (λ k. cc ((is_blank_iff t).1 k))),
  )
]

given_Decides :
    {A : Type 0} (o : Option A) (test : A → Bool) (T : A → Type 0)
    → ((a : A) → Decides (test a) (T a))
    → Decides (unless o test) ((a : A) → o ≡ some a → T a)
given_Decides none test T d = (λ h a e. cc, λ h. refl)
given_Decides (some t) test T d =
    (λ h a k. subst T (some_inj k) ((d t).0 h), λ h. (d t).1 (h t refl))

module _ (ilike : String → String → Bool) (upper : String → String) where
  -- One of the three texts has the query in it, as ILIKE reads the escaped query between two `%`.
  abbrev Mentions : String → String → String → String → Type 0
  Mentions a b c query =
      let pattern = fstring ("%" ∷ escape_like query ∷ "%" ∷ []) in
      (ilike a pattern ≡ true) ⊎ ((ilike b pattern ≡ true) ⊎ (ilike c pattern ≡ true))

  searched_Decides :
      (a b c query : String) → Decides (searched ilike upper a b c query) (Mentions a b c query)
  searched_Decides a b c query =
      or_Decides _ _ (id_Decides _) (or_Decides _ _ (id_Decides _) (id_Decides _))

  -- A run fits a query that is not blank if its title, brand or code mentions it, and a status that is
  -- given if it has that status.
  abbrev pub RunFits : Option String → Option String → ContentRun → Type 0
  RunFits query status r =
      GivenStripped query (Mentions r.title r.brand r.code)
      × GivenNonempty status (λ s. r.status ≡ upper s)

  abbrev pub TaskFits : Option String → Option String → Option Uuid → HumanTask → Type 0
  TaskFits query status assignee r =
      GivenStripped query (Mentions r.title r.brand r.code)
      × (GivenNonempty status (λ s. r.status ≡ upper s)
          × ((a : Uuid) → assignee ≡ some a → r.assignee_id ≡ some a))

  abbrev pub MaterialFits : Option String → Option String → Material → Type 0
  MaterialFits query type r =
      GivenStripped query (Mentions r.title r.source r.summary)
      × GivenStripped type (λ t. r.type ≡ t)

  pub run_listed_Decides :
      (query status : Option String) (r : ContentRun)
      → Decides (run_listed ilike upper query status r) (RunFits query status r)
  run_listed_Decides query status r =
      and_Decides _ _ (stripped_Decides query _ _ (searched_Decides r.title r.brand r.code))
        (nonempty_Decides status _ _ (λ s. eq_iff r.status (upper s)))

  pub task_listed_Decides :
      (query status : Option String) (assignee : Option Uuid) (r : HumanTask)
      → Decides (task_listed ilike upper query status assignee r) (TaskFits query status assignee r)
  task_listed_Decides query status assignee r =
      and_Decides _ _ (stripped_Decides query _ _ (searched_Decides r.title r.brand r.code)) (
        and_Decides _ _ (nonempty_Decides status _ _ (λ s. eq_iff r.status (upper s)))
          (given_Decides assignee _ _ (λ a. holds_iff ⦃e = nat_eq⦄ r.assignee_id a)))

  pub material_listed_Decides :
      (query type : Option String) (r : Material)
      → Decides (material_listed ilike upper query type r) (MaterialFits query type r)
  material_listed_Decides query type r =
      and_Decides _ _ (stripped_Decides query _ _ (searched_Decides r.title r.source r.summary))
        (stripped_Decides type _ _ (λ t. eq_iff r.type t))
