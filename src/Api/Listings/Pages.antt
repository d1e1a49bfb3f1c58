-- ===== src/Api/Listings/Pages.antt =====
-- The pages of a list together: apps/api/repositories.py.
use aipy.Prelude.{
  ℕ, zero, suc, String, refl, sym, ap, Bool, Option, List, [], map, arith, ℕ_discrete, ◌+◌, ◌-◌,
  ◌*◌, ◌≤◌, ◌≡◌, ◌∙◌, ◌∷◌, ◌++◌, Decides, length, keep,
}
use aipy.Prelude.Sorting.{limit, offset, order_by, limit_add, limit_all, length-order_by}
use aipy.Prelude.Sorting.Unique.{Sorted, Orders, Apart, keep-Apart, order_by-Orders, ordered_once}
use mathlib.Core.HLevel.{hedberg}
use mathlib.Core.List.{Perm, map-append}
use aipy.Security.{Uuid, TenantContext}
use aipy.Authorization.Policy.{AuthorizationPolicy}
use aipy.Api.Rows.{ContentRun, HumanTask, Material}
use aipy.Api.Boards.{to_content_run, to_human_task}
use aipy.Api.Store.Memory.{string_discrete, content_run_discrete, human_task_discrete}
use aipy.Api.Listings.Filters.{
  Filtered, keep-Filtered, RunFits, TaskFits, MaterialFits, run_listed_Decides, task_listed_Decides,
  material_listed_Decides,
}
use aipy.Api.Listings.{Page, count, listing, list_content_runs, list_human_tasks, list_materials}
use aipy.Api.Uploads.{to_material}

-- What the pages 1 to `n` show.
abbrev pub pages : {B : Type 0} → (ℕ → Page B) → ℕ → List B
pages page zero = []
pages page (suc n) = pages page n ++ (page (suc n)).items

-- There is a list of the rows that fit, each as often as it is stored, sorted by `seq`, of which the
-- first pages show the beginning and all pages show all; each page names its length.
abbrev pub Covers :
    {A B : Type 0} → (A → B) → (A → Type 0) → (A → ℕ) → List A → ℕ → (ℕ → Page B) → Type 0
Covers {A} show Fits seq rows page_size page =
    (fitting : List A) × (ordered : List A) × Filtered Fits rows fitting
    × Perm ordered fitting
    × Sorted seq ordered
    × ((n : ℕ) → pages page n ≡ map show (limit (n * page_size) ordered))
    × ((n : ℕ) → (page n).total ≡ length ordered)
    × ((n : ℕ) → (page n).total ≤ n * page_size → pages page n ≡ map show ordered)

material_discrete : Discrete Material
material_discrete = hlevel (ℕ_discrete, string_discrete)

count-keep :
    {A : Type 0} (test : A → Bool) (rows : List A) → count test rows ≡ length (keep test rows)
count-keep test [] = refl
count-keep test (row ∷ rows) = ground (arith, count-keep test rows)

module _ {A B : Type 0} (Fits : A → Type 0) (seq : A → ℕ) (order : ℕ → List A → List A)
    (test : A → Bool) (show : A → B) (page_size : ℕ) (rows : List A) where
  abbrev page : ℕ → Page B
  page n = listing (order n) test show n page_size rows

  abbrev ordered : List A
  ordered = order_by seq (keep test rows)

  -- Every page is one of the same ordered rows.
  abbrev IsOrdered : Type 0
  IsOrdered = (n : ℕ) → order n (keep test rows) ≡ ordered

  pages-listing : IsOrdered → (n : ℕ) → pages page n ≡ map show (limit (n * page_size) ordered)
  unfolding listing limit
  pages-listing once zero = let e : 0 * page_size ≡ 0 = omega arith in rw e refl
  pages-listing once (suc n) =
      let before : suc n - 1 ≡ n = omega arith in
      let behind : suc n * page_size ≡ n * page_size + page_size = grind arith in
      rw (before, once (suc n), pages-listing once n, behind)
        (sym (
            map-append show (limit (n * page_size) ordered)
              (limit page_size (offset (n * page_size) ordered)))
          ∙ ap (map show) (sym (limit_add (n * page_size) page_size ordered)))

  listing-Covers :
      IsSet A
      → ((x : A) → Decides (test x) (Fits x))
      → ((n : ℕ) → Orders seq (order n))
      → Apart seq rows
      → Covers show Fits seq rows page_size page
  unfolding listing
  listing-Covers set decides orders apart =
      let once : IsOrdered = λ n.
        ordered_once seq (order n) (keep test rows) set (orders n)
          (keep-Apart seq test rows apart) in
      let sorting = order_by-Orders seq in
      (
        keep test rows,
        ordered,
        keep-Filtered Fits test rows decides,
        sorting.same_rows (keep test rows),
        sorting.sorted (keep test rows),
        pages-listing once,
        λ n. count-keep test rows ∙ sym (length-order_by seq (keep test rows)),
        λ n few.
            pages-listing once n
            ∙ ap (map show) (
                limit_all (n * page_size) ordered
                  (omega (arith, few, count-keep test rows, length-order_by seq (keep test rows)))),
      )

module _ (ilike : String → String → Bool) (upper : String → String)
    (get_policy : TenantContext → Option AuthorizationPolicy) (subject : TenantContext)
    (page_size : ℕ) where
  runs-Covers :
      (order : ℕ → List ContentRun → List ContentRun) (query status : Option String)
      (runs : List ContentRun)
      → ((n : ℕ) → Orders (λ r. r.seq) (order n))
      → Apart (λ r. r.seq) runs
      → Covers
          (to_content_run get_policy subject)
          (RunFits ilike upper query status)
          (λ r. r.seq)
          runs
          page_size
          (λ n.
            list_content_runs ilike upper get_policy subject
              (order n)
              n
              page_size
              query
              status
              runs)
  unfolding list_content_runs
  runs-Covers order query status runs orders apart =
      listing-Covers _ (λ r. r.seq) order _ _ page_size runs (hedberg content_run_discrete)
        (run_listed_Decides ilike upper query status) orders apart

  tasks-Covers :
      (order : ℕ → List HumanTask → List HumanTask) (query status : Option String)
      (assignee : Option Uuid) (tasks : List HumanTask)
      → ((n : ℕ) → Orders (λ r. r.seq) (order n))
      → Apart (λ r. r.seq) tasks
      → Covers
          (to_human_task get_policy subject)
          (TaskFits ilike upper query status assignee)
          (λ r. r.seq)
          tasks
          page_size
          (λ n.
            list_human_tasks ilike upper get_policy subject
              (order n)
              n
              page_size
              query
              status
              assignee
              tasks)
  unfolding list_human_tasks
  tasks-Covers order query status assignee tasks orders apart =
      listing-Covers _ (λ r. r.seq) order _ _ page_size tasks (hedberg human_task_discrete)
        (task_listed_Decides ilike upper query status assignee) orders apart

  materials-Covers :
      (order : ℕ → List Material → List Material) (query type : Option String)
      (materials : List Material)
      → ((n : ℕ) → Orders (λ r. r.seq) (order n))
      → Apart (λ r. r.seq) materials
      → Covers
          (to_material get_policy subject)
          (MaterialFits ilike upper query type)
          (λ r. r.seq)
          materials
          page_size
          (λ n.
            list_materials ilike upper get_policy subject
              (order n)
              n
              page_size
              query
              type
              materials)
  unfolding list_materials
  materials-Covers order query type materials orders apart =
      listing-Covers _ (λ r. r.seq) order _ _ page_size materials (hedberg material_discrete)
        (material_listed_Decides ilike upper query type) orders apart

  -- For each of the three lists, if no two rows that are stored share their seq, and the statement
  -- of every page keeps the rows that it orders and sorts them by seq, there is one list of the
  -- rows that fit the filters, each as often as it is stored and sorted by seq, such that the pages
  -- 1 to n show its first n times page size rows; every page names its length, and n pages of at
  -- least that many rows show it all.
  pub lists-Covers :
      (order_runs : ℕ → List ContentRun → List ContentRun)
      (order_tasks : ℕ → List HumanTask → List HumanTask)
      (order_materials : ℕ → List Material → List Material) (query status type : Option String)
      (assignee : Option Uuid) (runs : List ContentRun) (tasks : List HumanTask)
      (materials : List Material)
      → ((n : ℕ) → Orders (λ r. r.seq) (order_runs n))
      → ((n : ℕ) → Orders (λ r. r.seq) (order_tasks n))
      → ((n : ℕ) → Orders (λ r. r.seq) (order_materials n))
      → Apart (λ r. r.seq) runs
      → Apart (λ r. r.seq) tasks
      → Apart (λ r. r.seq) materials
      → Covers
          (to_content_run get_policy subject)
          (RunFits ilike upper query status)
          (λ r. r.seq)
          runs
          page_size
          (λ n.
            list_content_runs ilike upper get_policy subject
              (order_runs n)
              n
              page_size
              query
              status
              runs)
        × Covers
            (to_human_task get_policy subject)
            (TaskFits ilike upper query status assignee)
            (λ r. r.seq)
            tasks
            page_size
            (λ n.
              list_human_tasks ilike upper get_policy subject
                (order_tasks n)
                n
                page_size
                query
                status
                assignee
                tasks)
        × Covers
            (to_material get_policy subject)
            (MaterialFits ilike upper query type)
            (λ r. r.seq)
            materials
            page_size
            (λ n.
              list_materials ilike upper get_policy subject
                (order_materials n)
                n
                page_size
                query
                type
                materials)
  lists-Covers order_runs order_tasks order_materials query status type assignee runs tasks
        materials by_run by_task by_material apart_runs apart_tasks apart_materials =
      (
        runs-Covers order_runs query status runs by_run apart_runs,
        tasks-Covers order_tasks query status assignee tasks by_task apart_tasks,
        materials-Covers order_materials query type materials by_material apart_materials,
      )
