-- ===== src/Api/Listings/Tests.antt =====
-- Lists and totals of small boards.
use aipy.Prelude.{
  ℕ, String, refl, Bool, none, some, List, [], arith, ◌+◌, ◌≤◌, ◌≡◌, ◌∷◌, ◌==◌, string_eq, nat_eq,
}
use aipy.Api.Rows.{ContentRun, HumanTask, Material}
use aipy.Api.Boards.{to_content_run, to_human_task}
use aipy.Api.Uploads.{to_material}
use aipy.Api.Fixtures.{operator, operator_policies, running, open_task, report}
use aipy.Prelude.Sorting.{limit, offset, order_by}
use aipy.Api.Listings.{
  count, list_content_runs, list_human_tasks, list_materials, content_run_counts, human_task_counts,
}
use aipy.Api.Listings.Pages.{Covers, lists-Covers}
use aipy.Api.Listings.Filters.{RunFits, TaskFits, MaterialFits}
use aipy.Prelude.Sorting.Unique.{Apart, order_by-Orders}
use aipy.Api.Listings.Counts.{counts_add_up, other_status}

abbrev same : String → String → Bool
same text pattern = text == "Launch"

abbrev as_it_is : String → String
as_it_is s = s

abbrev second : ContentRun
second = record running { id = 12; code = "CR-2"; seq = 2; status = "PAUSED" }

abbrev unrelated : ContentRun
unrelated = record running { id = 13; code = "CR-0"; seq = 0; title = "Other"; brand = "None" }

abbrev board : List ContentRun
board = second ∷ unrelated ∷ running ∷ []

abbrev by_seq : ℕ → List ContentRun → List ContentRun
by_seq n = order_by (λ r. r.seq)

-- The second page of one row each, of the two rows that fit.
second_page :
    list_content_runs same as_it_is operator_policies operator
      (by_seq 2)
      2
      1
      (some " Lau ")
      (some "")
      board
    ≡ record {
      items = to_content_run operator_policies operator second ∷ [];
      page = 2;
      page_size = 1;
      total = 2;
    }
unfolding list_content_runs limit offset order_by
second_page = refl

board_counts :
    content_run_counts board
    ≡ record { running = 2; waiting_human = 0; paused = 1; failed = 0; completed = 0; total = 3 }
unfolding content_run_counts
board_counts = refl

abbrev by_task : ℕ → List HumanTask → List HumanTask
by_task n = order_by (λ r. r.seq)

abbrev by_material : ℕ → List Material → List Material
by_material n = order_by (λ r. r.seq)

board-Apart : Apart (λ (r : ContentRun). r.seq) board
board-Apart =
    ((λ h. omega (arith, h), (λ h. omega (arith, h), tt)), ((λ h. omega (arith, h), tt), (tt, tt)))

lists-Covers_example :
    Covers
      (to_content_run operator_policies operator)
      (RunFits same as_it_is (some "Lau") none)
      (λ r. r.seq)
      board
      1
      (λ n.
        list_content_runs same as_it_is operator_policies operator
          (by_seq n)
          n
          1
          (some "Lau")
          none
          board)
    × Covers
        (to_human_task operator_policies operator)
        (TaskFits same as_it_is (some "Lau") none (some 7))
        (λ r. r.seq)
        (open_task ∷ [])
        1
        (λ n.
          list_human_tasks same as_it_is operator_policies operator
            (by_task n)
            n
            1
            (some "Lau")
            none
            (some 7)
            (open_task ∷ []))
    × Covers
        (to_material operator_policies operator)
        (MaterialFits same as_it_is (some "Lau") (some "PDF"))
        (λ r. r.seq)
        (report ∷ [])
        1
        (λ n.
          list_materials same as_it_is operator_policies operator
            (by_material n)
            n
            1
            (some "Lau")
            (some "PDF")
            (report ∷ []))
lists-Covers_example =
    lists-Covers same as_it_is operator_policies operator 1 by_seq by_task by_material (some "Lau")
      none (some "PDF") (some 7) board (open_task ∷ []) (report ∷ [])
      (λ n. order_by-Orders (λ r. r.seq)) (λ n. order_by-Orders (λ r. r.seq))
      (λ n. order_by-Orders (λ r. r.seq)) board-Apart (tt, tt) (tt, tt)

counts_add_up_example :
    (let c = content_run_counts board in
      c.running
        + c.waiting_human
        + c.paused
        + c.failed
        + c.completed
        + count (λ (r : ContentRun). other_status r.status) board
      ≡ c.total)
    × (let c = human_task_counts 7 (open_task ∷ []) in
        (c.pending
            + c.completed
            + count (λ (t : HumanTask). t.status == "CANCELLED") (open_task ∷ [])
          ≡ c.team)
        × (c.mine ≤ c.pending)
        × (c.open_tasks ≤ c.pending))
counts_add_up_example = counts_add_up board 7 (open_task ∷ [])
