-- ===== src/Service.antt =====
-- src/Win32Service/main.cpp: the status of the service. SvcMain and the control handler run in threads of
-- their own: main goes on from one call of the system to the next, and a handler runs between two such
-- steps or is itself cut at SetEvent. What is reported to the service manager is kept in a ledger. The
-- answers of RegisterServiceCtrlHandlerEx and CreateEvent are inputs of the steps. A report is one step here; the
-- source writes gSvcStatus and dwCheckPoint without a lock, so reports of two threads may mix their fields, which is not
-- modelled.
pub mod Ending
mod Examples
use win32_experiments.Common.{
  ℕ, zero, suc, ◌+◌, ◌%◌, ◌^◌, Bool, true, false, List, [], ◌∷◌, ◌++◌, ◌==◌, if◌then◌else◌,
}

-- The states that the service reports.
pub data ServiceState : Type 0 where
  none_reported stopped start_pending stop_pending running : ServiceState

-- SERVICE_STATUS. `controls_accepted` is whether stop, session change and shutdown are accepted, or none.
pub record ServiceStatus : Type 0 where
  pub current_state : ServiceState
  pub win32_exit_code : ℕ
  pub wait_hint : ℕ
  pub controls_accepted : Bool
  pub check_point : ℕ

-- Where SvcMain stands, and where a handler does that was cut at SetEvent.
pub data Phase : Type 0 where
  registering creating_event reporting_running waiting finished : Phase

-- The globals, the static dwCheckPoint, whether the event is signalled, and the ledger of reports.
pub record Service : Type 0 where
  pub status : ServiceStatus
  pub next_check_point : ℕ
  pub stop_event : ℕ
  pub signalled : Bool
  pub phase : Phase
  pub stopping : ℕ
  pub reports : List ServiceStatus

pub accepts_controls : ServiceState → Bool
accepts_controls start_pending = false
accepts_controls state = true

-- `dwCurrentState == ServiceRunning or dwCurrentState == ServiceStopped`.
pub is_settled : ServiceState → Bool
is_settled running = true
is_settled stopped = true
is_settled state = false

-- ReportSvcStatus, where no other report runs at the same time.
pub report_svc_status : ServiceState → ℕ → ℕ → Service → Service
unfolding accepts_controls is_settled
report_svc_status state exit_code wait_hint s =
    let status : ServiceStatus = record {
      current_state = state;
      win32_exit_code = exit_code;
      wait_hint = wait_hint;
      controls_accepted = accepts_controls state;
      check_point = if is_settled state then 0 else s.next_check_point;
    } in
    record s {
      status = status;
      next_check_point =
          if is_settled state then s.next_check_point else (s.next_check_point + 1) % 2 ^ 32;
      reports = s.reports ++ status ∷ [];
    }

-- SetEvent, which fails on a null handle.
pub set_event : Service → Service
set_event s = if s.stop_event == 0 then s else record s { signalled = true }

pub data Control : Type 0 where
  interrogate stop shutdown session_change other_control : Control

-- SvcCtrlHandler, up to the SetEvent of its stop branch.
pub svc_ctrl_handler : Control → Service → Service
unfolding report_svc_status set_event
svc_ctrl_handler interrogate s = s
svc_ctrl_handler stop s =
    let t = set_event (report_svc_status stop_pending 0 0 s) in
    record t { stopping = t.stopping + 1 }
svc_ctrl_handler shutdown s = set_event s
svc_ctrl_handler session_change s = report_svc_status s.status.current_state 0 0 s
svc_ctrl_handler other_control s = s

-- The rest of a stop branch that was cut.
pub finish_stop : ℕ → Service → Service
unfolding report_svc_status
finish_stop zero s = s
finish_stop (suc n) s = record (report_svc_status s.status.current_state 0 0 s) { stopping = n }

-- The next step of SvcMain, with the handle that its call answers, and the last error.
pub svc_main : Phase → ℕ → ℕ → Service → Service
unfolding report_svc_status
svc_main registering handle last_error s =
    if handle == 0
    then record s { phase = finished }
    else record (report_svc_status start_pending 0 3000 s) { phase = creating_event }
svc_main creating_event handle last_error s =
    if handle == 0
    then record (report_svc_status stopped last_error 0 s) { phase = finished }
    else record s { stop_event = handle; phase = reporting_running }
svc_main reporting_running handle last_error s = record (report_svc_status running 0 0 s) {
  phase = waiting;
}
svc_main waiting handle last_error s =
    if s.signalled then record (report_svc_status stopped 0 0 s) { phase = finished } else s
svc_main finished handle last_error s = s

pub data Action : Type 0 where
  main_goes_on : ℕ → ℕ → Action
  control_arrives : Control → Action
  stop_goes_on : Action

-- No control arrives before the handler is registered.
pub arrives : Phase → Control → Service → Service
unfolding svc_ctrl_handler
arrives registering control s = s
arrives phase control s = svc_ctrl_handler control s

pub step : Service → Action → Service
unfolding svc_main arrives finish_stop
step s (main_goes_on handle last_error) = svc_main s.phase handle last_error s
step s (control_arrives control) = arrives s.phase control s
step s stop_goes_on = finish_stop s.stopping s

pub run : Service → List Action → Service
unfolding step
run s [] = s
run s (a ∷ rest_actions) = run (step s a) rest_actions

-- The globals as the process starts.
pub start : Service
start = record {
  status = record {
    current_state = none_reported;
    win32_exit_code = 0;
    wait_hint = 0;
    controls_accepted = false;
    check_point = 0;
  };
  next_check_point = 1;
  stop_event = 0;
  signalled = false;
  phase = registering;
  stopping = 0;
  reports = [];
}
