-- ===== src/Progress/Closing.antt =====
-- What closes a window.
use win32_experiments.Common.{◌≡◌, refl, ◌∙◌, Bool, true, false, ◌&&◌, ◌||◌, List, [], ◌∷◌, arith}
use win32_experiments.Progress.{
  ProgressStatus, Window, set_title, set_text, set_value, set_progress, set_value_range,
  set_marquee, update_title, update_text, update_marquee, update_progress, update_value, set_status,
  progress_window, cancel, destroyed, command, close_asked, other_message, on_close, window_proc,
  Action, sets_title, sets_text, sets_value, sets_progress, sets_marquee, sets_status, closes,
  cancels, gets, act, run,
}

-- The program never calls Close, and the system does not destroy the window.
abbrev pub NeverCloses : List Action → Type 0
NeverCloses [] = Unit {0}
NeverCloses (closes ∷ rest_actions) = ⊥
NeverCloses (gets destroyed ∷ rest_actions) = ⊥
NeverCloses (a ∷ rest_actions) = NeverCloses rest_actions

-- Nobody asks the user, and nobody has closed the window.
abbrev IsStuck : Window → Type 0
IsStuck w = (w.has_on_cancel ≡ false) × ((w.user_close ≡ false) × (w.closed ≡ false))

-- What SetStatus leaves alone.
abbrev Leaves : Window → Window → Type 0
Leaves w u =
    (u.has_on_cancel ≡ w.has_on_cancel) × ((u.user_close ≡ w.user_close) × (u.closed ≡ w.closed))

set_status-Leaves : (s : ProgressStatus) (w : Window) → Leaves w (set_status s w)
unfolding set_status update_title update_text update_marquee update_progress update_value set_title
    set_text set_marquee set_progress set_value
set_status-Leaves s w = ground arith

on_close-IsStuck : (answer : Bool) (w : Window) → IsStuck w → IsStuck (on_close answer w)
unfolding on_close
on_close-IsStuck answer w (a, (b, c)) =
    let e : (w.user_close || (w.has_on_cancel && answer)) ≡ false = ground arith in rw e (a, (b, c))

run-IsStuck :
    (actions : List Action) (w : Window) → NeverCloses actions → IsStuck w → IsStuck (run actions w)
unfolding run act set_title set_text set_value set_progress set_marquee cancel window_proc
run-IsStuck [] w n h = h
run-IsStuck (sets_title v ∷ rest_actions) w n h = run-IsStuck rest_actions (set_title v w) n h
run-IsStuck (sets_text v ∷ rest_actions) w n h = run-IsStuck rest_actions (set_text v w) n h
run-IsStuck (sets_value v ∷ rest_actions) w n h = run-IsStuck rest_actions (set_value v w) n h
run-IsStuck (sets_progress low high ∷ rest_actions) w n h =
    run-IsStuck rest_actions (set_progress low high w) n h
run-IsStuck (sets_marquee v ∷ rest_actions) w n h = run-IsStuck rest_actions (set_marquee v w) n h
run-IsStuck (sets_status s ∷ rest_actions) w n (a, (b, c)) =
    let (x, (y, z)) = set_status-Leaves s w in
    run-IsStuck rest_actions (set_status s w) n (x ∙ a, (y ∙ b, z ∙ c))
run-IsStuck (closes ∷ rest_actions) w n h = elim n [ ]
run-IsStuck (cancels ∷ rest_actions) w n (a, (b, c)) =
    run-IsStuck rest_actions (cancel w) n (a, (refl, c))
run-IsStuck (gets destroyed ∷ rest_actions) w n h = elim n [ ]
run-IsStuck (gets (command true answer) ∷ rest_actions) w n h =
    run-IsStuck rest_actions (on_close answer w) n (on_close-IsStuck answer w h)
run-IsStuck (gets (command false answer) ∷ rest_actions) w n h = run-IsStuck rest_actions w n h
run-IsStuck (gets (close_asked answer) ∷ rest_actions) w n h =
    run-IsStuck rest_actions (on_close answer w) n (on_close-IsStuck answer w h)
run-IsStuck (gets other_message ∷ rest_actions) w n h = run-IsStuck rest_actions w n h

-- A window without OnCancel is closed by Close alone: as long as the program does not call Close and
-- the system does not destroy the window, no call of Cancel, no close button and no command closes it.
pub run-progress_window-open :
    (s : ProgressStatus) (actions : List Action)
    → NeverCloses actions
    → (run actions (progress_window s false)).closed ≡ false
unfolding progress_window set_marquee set_value_range set_progress set_value
run-progress_window-open s actions n =
    (run-IsStuck actions (progress_window s false) n (refl, (refl, refl))).1.1
