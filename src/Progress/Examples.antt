-- ===== src/Progress/Examples.antt =====
-- The window of the sample, and the witnesses.
use win32_experiments.Common.{◌≡◌, refl, true, false, [], ◌∷◌, codes}
use win32_experiments.Progress.{
  ProgressStatus, progress_status, progress_window, sets_status, sets_value, cancels, gets,
  close_asked, run, act, window_proc, on_close, closes, close, set_marquee, set_value_range,
  set_progress, set_value, within, set_status, update_title, update_text, update_marquee,
  update_progress, update_value, text_eq, bool_eq, low_word, set_text, set_title,
}
use win32_experiments.Progress.Closing.{run-progress_window-open}

abbrev waiting_status : ProgressStatus
waiting_status = record {
  title = codes "a";
  text = codes "b";
  value = 0;
  min = 0;
  max = 0;
  marquee = true;
}

abbrev hundred : ProgressStatus
hundred = record {
  title = codes "a";
  text = codes "c";
  value = 20;
  min = 0;
  max = 100;
  marquee = false;
}

max_run : (progress_status 9 [] [] 0 0 100 false).max ≡ 9
unfolding progress_status
max_run = refl

closed_run :
    (run (closes ∷ gets (close_asked false) ∷ []) (progress_window waiting_status false)).closed
    ≡ true
unfolding run act close window_proc on_close progress_window set_marquee set_value_range
    set_progress set_value
closed_run = refl

-- SetStatus with the old value sends no position, so the control stays at the end of its old range.
stale_run :
    (run
      (sets_value 200 ∷ sets_status (record hundred { value = 200; max = 300 }) ∷ [])
      (progress_window hundred true)).shown.position
    ≡ 100
unfolding run act progress_window set_marquee set_value_range set_progress set_value within
    set_status update_title update_text update_marquee update_progress update_value text_eq bool_eq
    low_word set_text set_title
stale_run = refl

run-progress_window-open_example :
    (run (cancels ∷ gets (close_asked true) ∷ []) (progress_window waiting_status false)).closed
    ≡ false
run-progress_window-open_example =
    run-progress_window-open waiting_status (cancels ∷ gets (close_asked true) ∷ []) tt
