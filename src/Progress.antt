-- ===== src/Progress.antt =====
-- src/progress-bar/progressbar-status.ixx and progressbar-progresswindow.ixx: a window with a progress
-- bar. What is shown is what the last messages to the controls said, with the position kept within the range. An `int` is its 32 bits. The answer
-- of the caller's OnCancel comes with the message that asks for it.
pub mod SetStatus
pub mod Mirror
pub mod Closing
mod Examples
use win32_experiments.Common.{
  ℕ, zero, suc, ◌+◌, ◌%◌, ◌^◌, Bool, true, false, not, ◌&&◌, ◌||◌, List, [], ◌∷◌, ◌==◌,
  if◌then◌else◌, leb, ltb,
}

abbrev pub Text : Type 0
Text = List ℕ

pub record ProgressStatus : Type 0 where
  pub title : Text
  pub text : Text
  pub value : ℕ
  pub min : ℕ
  pub max : ℕ
  pub marquee : Bool

-- The constructor, whose `Max = Max` reads the member that is not set yet and not the argument.
pub progress_status : ℕ → Text → Text → ℕ → ℕ → ℕ → Bool → ProgressStatus
progress_status garbage title text value min max marquee = record {
  title = title;
  text = text;
  value = value;
  min = min;
  max = garbage;
  marquee = marquee;
}

-- The texts of the controls, PBM_SETPOS, PBM_SETRANGE and PBM_SETMARQUEE.
pub record Shown : Type 0 where
  pub title : Text
  pub text : Text
  pub position : ℕ
  pub low : ℕ
  pub high : ℕ
  pub marquee : Bool

pub record Window : Type 0 where
  pub status : ProgressStatus
  pub shown : Shown
  pub has_on_cancel : Bool
  pub user_close : Bool
  pub canceled : Bool
  pub closed : Bool
  pub posted : ℕ

-- A half of MAKELPARAM.
pub low_word : ℕ → ℕ
low_word v = v % 2 ^ 16

pub set_title : Text → Window → Window
set_title v w = record w {
  shown = record (w.shown) { title = v };
  status = record (w.status) { title = v };
}

pub set_text : Text → Window → Window
set_text v w = record w {
  shown = record (w.shown) { text = v };
  status = record (w.status) { text = v };
}

-- What the control makes of a position: it keeps to its range. The upper half of the words are negative.
pub within : ℕ → ℕ → ℕ → ℕ
within low high v = if leb (2 ^ 31) v || ltb v low then low else if ltb high v then high else v

pub set_value : ℕ → Window → Window
unfolding within
set_value v w = record w {
  shown = record (w.shown) { position = within w.shown.low w.shown.high v };
  status = record (w.status) { value = v };
}

pub set_progress : ℕ → ℕ → Window → Window
unfolding low_word within
set_progress low high w = record w {
  shown = record (w.shown) {
    low = low_word low;
    high = low_word high;
    position = within (low_word low) (low_word high) w.shown.position;
  };
  status = record (w.status) { min = low; max = high };
}

pub set_value_range : ℕ → ℕ → ℕ → Window → Window
unfolding set_progress set_value
set_value_range value low high w = set_value value (set_progress low high w)

pub set_marquee : Bool → Window → Window
set_marquee v w = record w {
  shown = record (w.shown) { marquee = v };
  status = record (w.status) { marquee = v };
}

pub text_eq : Text → Text → Bool
text_eq [] [] = true
text_eq [] (d ∷ b) = false
text_eq (c ∷ a) [] = false
text_eq (c ∷ a) (d ∷ b) = (c == d) && text_eq a b

pub bool_eq : Bool → Bool → Bool
bool_eq true b = b
bool_eq false b = not b

-- SetStatus, one test after the other.
pub update_title : ProgressStatus → Window → Window
unfolding text_eq set_title
update_title s w = if text_eq w.status.title s.title then w else set_title s.title w

pub update_text : ProgressStatus → Window → Window
unfolding text_eq set_text
update_text s w = if text_eq w.status.text s.text then w else set_text s.text w

pub update_marquee : ProgressStatus → Window → Window
unfolding bool_eq set_marquee
update_marquee s w = if bool_eq w.status.marquee s.marquee then w else set_marquee s.marquee w

pub update_progress : ProgressStatus → Window → Window
unfolding set_progress
update_progress s w =
    if not (w.status.max == s.max) || not (w.status.min == s.min)
    then set_progress s.min s.max w
    else w

pub update_value : ProgressStatus → Window → Window
unfolding set_value
update_value s w = if w.status.value == s.value then w else set_value s.value w

pub set_status : ProgressStatus → Window → Window
unfolding update_title update_text update_marquee update_progress update_value
set_status s w =
    update_value s (update_progress s (update_marquee s (update_text s (update_title s w))))

-- The constructor: the texts as the controls are created, then SetMarquee and SetValue.
pub progress_window : ProgressStatus → Bool → Window
unfolding set_marquee set_value_range
progress_window s has_on_cancel = set_value_range s.value s.min s.max (
    set_marquee s.marquee (record {
      status = s;
      shown = record {
        title = s.title;
        text = s.text;
        position = 0;
        low = 0;
        high = 100;
        marquee = false;
      };
      has_on_cancel = has_on_cancel;
      user_close = false;
      canceled = false;
      closed = false;
      posted = 0;
    }))

pub close : Window → Window
close w = record w { canceled = false; user_close = true; posted = w.posted + 1 }

pub cancel : Window → Window
cancel w = record w { canceled = true; user_close = false; posted = w.posted + 1 }

-- The messages that WndProc handles: a command with whether it is IDCANCEL, and the answers of OnCancel.
pub data Message : Type 0 where
  destroyed : Message
  command : Bool → Bool → Message
  close_asked : Bool → Message
  other_message : Message

-- The WM_CLOSE branch; DestroyWindow brings WM_DESTROY at once.
pub on_close : Bool → Window → Window
on_close answer w =
    if w.user_close || (w.has_on_cancel && answer)
    then record w { canceled = not w.user_close; closed = true }
    else w

pub window_proc : Message → Window → Window
unfolding on_close
window_proc destroyed w = record w { closed = true }
window_proc (command is_cancel answer) w = if is_cancel then on_close answer w else w
window_proc (close_asked answer) w = on_close answer w
window_proc other_message w = w

-- What the program's threads do with a window.
pub data Action : Type 0 where
  sets_title : Text → Action
  sets_text : Text → Action
  sets_value : ℕ → Action
  sets_progress : ℕ → ℕ → Action
  sets_marquee : Bool → Action
  sets_status : ProgressStatus → Action
  closes : Action
  cancels : Action
  gets : Message → Action

pub act : Action → Window → Window
unfolding set_title set_text set_value set_progress set_marquee set_status close cancel window_proc
act (sets_title v) w = set_title v w
act (sets_text v) w = set_text v w
act (sets_value v) w = set_value v w
act (sets_progress low high) w = set_progress low high w
act (sets_marquee v) w = set_marquee v w
act (sets_status s) w = set_status s w
act closes w = close w
act cancels w = cancel w
act (gets m) w = window_proc m w

pub run : List Action → Window → Window
unfolding act
run [] w = w
run (a ∷ rest_actions) w = run rest_actions (act a w)
