-- ===== src/Service/Examples.antt =====
-- A life of the service, and the witnesses.
use win32_experiments.Common.{◌≡◌, refl, inl, List, [], ◌∷◌, map}
use win32_experiments.Service.{
  stopped, start_pending, stop_pending, running, waiting, finished, stop, session_change, Action,
  main_goes_on, control_arrives, stop_goes_on, run, step, start, svc_main, arrives,
  svc_ctrl_handler, finish_stop, report_svc_status, set_event, accepts_controls, is_settled,
}
use win32_experiments.Service.Ending.{run-stop-finished}

abbrev starting : List Action
starting = main_goes_on 1 0 ∷ main_goes_on 2 0 ∷ main_goes_on 0 0 ∷ []

abbrev life : List Action
life =
    main_goes_on 1 0
    ∷ main_goes_on 2 0
    ∷ main_goes_on 0 0
    ∷ control_arrives stop
    ∷ stop_goes_on
    ∷ main_goes_on 0 0
    ∷ []

life_reports :
    map (λ r. r.current_state) (run start life).reports
    ≡ start_pending ∷ running ∷ stop_pending ∷ stop_pending ∷ stopped ∷ []
unfolding run step svc_main arrives svc_ctrl_handler finish_stop report_svc_status set_event
    accepts_controls is_settled start
life_reports = refl

starting_waits : (run start starting).phase ≡ waiting
unfolding run step svc_main report_svc_status start
starting_waits = refl

run-stop-finished_example :
    (step
      (run (step (run start starting) (control_arrives stop)) (control_arrives session_change ∷ []))
      (main_goes_on 0 0)).phase
    ≡ finished
run-stop-finished_example =
    run-stop-finished starting (control_arrives session_change ∷ []) stop 0 0 (inl refl)
      starting_waits
