-- ===== src/Progress/Mirror.antt =====
-- A window shows the status that it was asked for, in every run.
use win32_experiments.Common.{Bool, false, List, [], ◌∷◌}
use win32_experiments.Progress.{
  ProgressStatus, Window, set_progress, set_marquee, Action, sets_title, sets_text, sets_value,
  sets_progress, sets_marquee, sets_status, closes, cancels, gets,
}
use win32_experiments.Progress.SetStatus.{Fits}

-- The status that a program has asked for.
abbrev pub asked : Action → ProgressStatus → ProgressStatus
asked (sets_title v) s = record s { title = v }
asked (sets_text v) s = record s { text = v }
asked (sets_value v) s = record s { value = v }
asked (sets_progress low high) s = record s { min = low; max = high }
asked (sets_marquee v) s = record s { marquee = v }
asked (sets_status t) s = t
asked closes s = s
asked cancels s = s
asked (gets k) s = s

abbrev pub asked_all : List Action → ProgressStatus → ProgressStatus
asked_all [] s = s
asked_all (a ∷ rest_actions) s = asked_all rest_actions (asked a s)

-- The value that is asked for stays in the range that is asked for.
abbrev pub AllFit : List Action → ProgressStatus → Type 0
AllFit [] s = Fits s
AllFit (a ∷ rest_actions) s = Fits s × AllFit rest_actions (asked a s)

-- The window that the constructor gives its first value to.
abbrev fresh : ProgressStatus → Bool → Window
fresh s has_on_cancel = set_progress s.min s.max (
    set_marquee s.marquee (record {
      status = s;
      shown = record {
        title = s.title;
        text = s.text;
        position = 0;
        low = 0;
        high = 100;
        marquee = false;
      };
      has_on_cancel = has_on_cancel;
      user_close = false;
      canceled = false;
      closed = false;
      posted = 0;
    }))
