-- ===== src/Service/Ending.antt =====
-- A stop ends the service.
use win32_experiments.Common.{
  ℕ, zero, suc, ◌≡◌, ◌≢◌, refl, ap, ◌∙◌, ◌⊎◌, inl, inr, true, List, [], ◌∷◌, ◌==◌, arith,
  Bool-cases,
}
use win32_experiments.Service.{
  Phase, registering, creating_event, reporting_running, waiting, finished, Service,
  report_svc_status, set_event, Control, interrogate, stop, shutdown, session_change, other_control,
  svc_ctrl_handler, finish_stop, svc_main, Action, main_goes_on, control_arrives, stop_goes_on,
  arrives, step, run, start,
}

-- SvcMain knows its event from the moment on at which it goes on to report that it runs.
abbrev HasEvent : Phase → ℕ → Type 0
HasEvent reporting_running event = event ≢ 0
HasEvent waiting event = event ≢ 0
HasEvent phase event = Unit {0}

-- What a control handler leaves alone: the phase of SvcMain, and its event; a signal stays.
abbrev Leaves : Service → Service → Type 0
Leaves s t =
    (t.phase ≡ s.phase)
    × ((t.stop_event ≡ s.stop_event) × (s.signalled ≡ true → t.signalled ≡ true))

handler-Leaves : (c : Control) (s : Service) → Leaves s (svc_ctrl_handler c s)
unfolding svc_ctrl_handler set_event report_svc_status
handler-Leaves interrogate s = (refl, (refl, λ e. e))
handler-Leaves stop s = ground arith
handler-Leaves shutdown s = ground arith
handler-Leaves session_change s = (refl, (refl, λ e. e))
handler-Leaves other_control s = (refl, (refl, λ e. e))

arrives-Leaves : (p : Phase) (c : Control) (s : Service) → Leaves s (arrives p c s)
unfolding arrives
arrives-Leaves registering c s = (refl, (refl, λ e. e))
arrives-Leaves creating_event c s = handler-Leaves c s
arrives-Leaves reporting_running c s = handler-Leaves c s
arrives-Leaves waiting c s = handler-Leaves c s
arrives-Leaves finished c s = handler-Leaves c s

finish_stop-Leaves : (n : ℕ) (s : Service) → Leaves s (finish_stop n s)
unfolding finish_stop report_svc_status
finish_stop-Leaves zero s = (refl, (refl, λ e. e))
finish_stop-Leaves (suc n) s = (refl, (refl, λ e. e))

Leaves-HasEvent :
    (s t : Service) → Leaves s t → HasEvent s.phase s.stop_event → HasEvent t.phase t.stop_event
Leaves-HasEvent s t (p, (e, k)) h = rw (p, e) h

svc_main-HasEvent :
    (p : Phase) (handle code : ℕ) (s : Service)
    → s.phase ≡ p
    → HasEvent p s.stop_event
    → let t = svc_main p handle code s in HasEvent t.phase t.stop_event
unfolding svc_main report_svc_status
svc_main-HasEvent registering handle code s e h = elim (Bool-cases (handle == 0)) [
  | inl z ↦ rw z tt
  | inr z ↦ rw z tt
]
svc_main-HasEvent creating_event handle code s e h = elim (Bool-cases (handle == 0)) [
  | inl z ↦ rw z tt
  | inr z ↦ rw z (ground arith)
]
svc_main-HasEvent reporting_running handle code s e h = h
svc_main-HasEvent waiting handle code s e h = elim (Bool-cases s.signalled) [
  | inl z ↦ rw z tt
  | inr z ↦ rw (z, e) h
]
svc_main-HasEvent finished handle code s e h = rw e tt

step-HasEvent :
    (s : Service) (a : Action)
    → HasEvent s.phase s.stop_event
    → HasEvent (step s a).phase (step s a).stop_event
unfolding step
step-HasEvent s (main_goes_on handle code) h = svc_main-HasEvent s.phase handle code s refl h
step-HasEvent s (control_arrives c) h =
    Leaves-HasEvent s (arrives s.phase c s) (arrives-Leaves s.phase c s) h
step-HasEvent s stop_goes_on h =
    Leaves-HasEvent s (finish_stop s.stopping s) (finish_stop-Leaves s.stopping s) h

run-HasEvent :
    (schedule : List Action) (s : Service)
    → HasEvent s.phase s.stop_event
    → HasEvent (run s schedule).phase (run s schedule).stop_event
unfolding run
run-HasEvent [] s h = h
run-HasEvent (a ∷ rest_actions) s h = run-HasEvent rest_actions (step s a) (step-HasEvent s a h)

start-HasEvent : HasEvent start.phase start.stop_event
unfolding start
start-HasEvent = tt

-- SvcMain is awake, or at its end.
abbrev IsEnding : Service → Type 0
IsEnding s = ((s.phase ≡ waiting) × (s.signalled ≡ true)) ⊎ (s.phase ≡ finished)

Leaves-IsEnding : (s t : Service) → Leaves s t → IsEnding s → IsEnding t
Leaves-IsEnding s t (p, (e, k)) (inl (w, g)) = inl (p ∙ w, k g)
Leaves-IsEnding s t (p, (e, k)) (inr f) = inr (p ∙ f)

svc_main_awake :
    (s : Service) (handle code : ℕ)
    → s.signalled ≡ true
    → (svc_main waiting handle code s).phase ≡ finished
unfolding svc_main report_svc_status
svc_main_awake s handle code g = rw g refl

svc_main-finished :
    (s : Service) (handle code : ℕ) → (svc_main finished handle code s).phase ≡ s.phase
unfolding svc_main
svc_main-finished s handle code = refl

main-finished :
    (s : Service) (handle code : ℕ) → IsEnding s → (svc_main s.phase handle code s).phase ≡ finished
main-finished s handle code (inl (w, g)) =
    ap (λ p. (svc_main p handle code s).phase) w ∙ svc_main_awake s handle code g
main-finished s handle code (inr f) =
    ap (λ p. (svc_main p handle code s).phase) f ∙ (svc_main-finished s handle code ∙ f)

step-IsEnding : (s : Service) (a : Action) → IsEnding s → IsEnding (step s a)
unfolding step
step-IsEnding s (main_goes_on handle code) h = inr (main-finished s handle code h)
step-IsEnding s (control_arrives c) h =
    Leaves-IsEnding s (arrives s.phase c s) (arrives-Leaves s.phase c s) h
step-IsEnding s stop_goes_on h =
    Leaves-IsEnding s (finish_stop s.stopping s) (finish_stop-Leaves s.stopping s) h

run-IsEnding : (schedule : List Action) (s : Service) → IsEnding s → IsEnding (run s schedule)
unfolding run
run-IsEnding [] s h = h
run-IsEnding (a ∷ rest_actions) s h = run-IsEnding rest_actions (step s a) (step-IsEnding s a h)

handler_signals :
    (c : Control) (s : Service)
    → (c ≡ stop) ⊎ (c ≡ shutdown)
    → s.stop_event ≢ 0
    → (svc_ctrl_handler c s).signalled ≡ true
unfolding svc_ctrl_handler set_event report_svc_status
handler_signals interrogate s e n = elim e [ inl x ↦ absurd (cc) | inr x ↦ absurd (cc) ]
handler_signals stop s e n = ground arith
handler_signals shutdown s e n = ground arith
handler_signals session_change s e n = elim e [ inl x ↦ absurd (cc) | inr x ↦ absurd (cc) ]
handler_signals other_control s e n = elim e [ inl x ↦ absurd (cc) | inr x ↦ absurd (cc) ]

arrives_waiting : (c : Control) (s : Service) → arrives waiting c s ≡ svc_ctrl_handler c s
unfolding arrives
arrives_waiting c s = refl

stop-IsEnding :
    (s : Service) (c : Control)
    → (c ≡ stop) ⊎ (c ≡ shutdown)
    → s.phase ≡ waiting
    → s.stop_event ≢ 0
    → IsEnding (step s (control_arrives c))
unfolding step
stop-IsEnding s c e w n =
    let (p, k) = arrives-Leaves s.phase c s in
    let sent =
      ap (λ q. (arrives q c s).signalled) w ∙ ap (λ t. t.signalled) (arrives_waiting c s) in
    inl (p ∙ w, sent ∙ handler_signals c s e n)

waiting-HasEvent : (p : Phase) (event : ℕ) → HasEvent p event → p ≡ waiting → event ≢ 0
waiting-HasEvent reporting_running event h w = h
waiting-HasEvent waiting event h w = h
waiting-HasEvent registering event h w = absurd (cc)
waiting-HasEvent creating_event event h w = absurd (cc)
waiting-HasEvent finished event h w = absurd (cc)

-- Once SvcMain waits, whatever came before, a stop or shutdown control ends the service: whatever
-- comes after it, other controls, stops that are cut short or steps of SvcMain, the next step of SvcMain
-- has finished.
pub run-stop-finished :
    (before after : List Action) (c : Control) (handle code : ℕ)
    → (c ≡ stop) ⊎ (c ≡ shutdown)
    → (run start before).phase ≡ waiting
    → (step
        (run (step (run start before) (control_arrives c)) after)
        (main_goes_on handle code)).phase
      ≡ finished
unfolding step
run-stop-finished before after c handle code e w =
    let s = run start before in
    let event =
      waiting-HasEvent s.phase s.stop_event (run-HasEvent before start start-HasEvent) w in
    main-finished (run (step s (control_arrives c)) after) handle code
      (run-IsEnding after (step s (control_arrives c)) (stop-IsEnding s c e w event))
