-- ===== src/Worker/Tests.antt =====
-- The worker's task on the table in memory: a run is generated, and cancelled in the meantime.
use aipy.Prelude.{String, refl, inl, inr, some, List, [], ℕ_discrete, ◌≡◌, ◌∷◌, In}
use aipy.Prelude.Outcomes.{Outcome, ok}
use aipy.Api.Rows.{ContentRun, content_run_row}
use aipy.Api.Store.{bumped}
use aipy.Api.Store.Memory.{memory}
use aipy.Api.Fixtures.{running, runs}
use aipy.Worker.{ModelRequest, run_row, conclude, run_content_workflow, terminal}
use aipy.Worker.Completed.{StoredAs, conclude_completes}

abbrev gateway : ModelRequest → Outcome String String
gateway request = ok "正文"

abbrev cancelled : ContentRun
cancelled = record running {
  status = "CANCELLED";
  row_version = 4;
  status_label = "已取消";
  tone = "neutral";
}

abbrev cancel_meanwhile : List ContentRun → List ContentRun
cancel_meanwhile db = cancelled ∷ []

abbrev done : ContentRun
done = record running {
  status = "COMPLETED";
  status_label = "已完成";
  tone = "success";
  updated_at_label = "刚刚";
  updated_by = some 9;
}

abbrev overwritten : ContentRun
overwritten = bumped content_run_row cancelled done

cancelled_found : run_row runs gateway "CR-1" 1 (cancelled ∷ []) ≡ some cancelled
unfolding memory
cancelled_found = refl

cancelled_listed : In {A = String} "CANCELLED" terminal
cancelled_listed = inr (inl refl)

concluded : conclude runs gateway "CR-1" 1 9 (cancelled ∷ []) ≡ (some "completed", overwritten ∷ [])
unfolding conclude memory aipy.Api.Store.Memory.content_run_discrete aipy.Prelude.ℕ_discrete
    aipy.Worker.apply_status aipy.Content.StateMachine.content_status_label
    aipy.Content.Status.content_status
concluded = refl

cancel_is_lost_test :
    (run_content_workflow runs gateway "CR-1" 1 9 cancel_meanwhile (running ∷ [])).0
    ≡ some "completed"
unfolding run_content_workflow memory aipy.Api.Store.Memory.content_run_discrete
    aipy.Prelude.ℕ_discrete aipy.Worker.apply_status aipy.Api.Store.Memory.string_discrete
cancel_is_lost_test = refl

conclude_completes_example : StoredAs runs gateway "COMPLETED" 1 cancelled (overwritten ∷ [])
conclude_completes_example =
    conclude_completes runs gateway "CR-1" 1 9 (cancelled ∷ []) (overwritten ∷ []) cancelled
      cancelled_found concluded
