-- ===== src/Ui/State.antt =====
-- The functions of apps/psp/src/ui.c that change the state, other than adding a notification.
use psp_dev_link.Base.{
  ℕ, zero, suc, ◌+◌, ◌-◌, ◌≤◌, ◌<◌, ◌≡◌, refl, [], true, false, ltb, leb, if_intro, Bool-cases, inl,
  inr, arith, ◌∙◌,
}
use native.Mathlib.Decide.{dec_lt}
use psp_dev_link.Payload.Notification.{HasTexts}
use psp_dev_link.Ui.{
  Ui, initial_ui, IsUi, shown, ui_toggle_history, ui_close_active_popup, ui_clear_history,
  ui_handle_circle_press, tick_popup, swap_buffers,
}

blank_texts : HasTexts initial_ui.active_popup_notif
blank_texts = record { name_ends = tt; summary_ends = tt; body_ends = tt }

pub initial_ui-IsUi : IsUi initial_ui
initial_ui-IsUi = record {
  five = refl;
  count_fits = omega arith;
  texts = (blank_texts, (blank_texts, (blank_texts, (blank_texts, (blank_texts, tt)))));
  popup_texts = blank_texts;
  ticks_fit = omega arith;
  buffers = inl (refl, refl);
}

pub ui_toggle_history-IsUi : (u : Ui) → IsUi u → IsUi (ui_toggle_history u)
unfolding ui_toggle_history
ui_toggle_history-IsUi u ok = record {
  five = ok.five;
  count_fits = ok.count_fits;
  texts = ok.texts;
  popup_texts = ok.popup_texts;
  ticks_fit = ok.ticks_fit;
  buffers = ok.buffers;
}

pub ui_close_active_popup-IsUi : (u : Ui) → IsUi u → IsUi (ui_close_active_popup u)
unfolding ui_close_active_popup
ui_close_active_popup-IsUi u ok = record {
  five = ok.five;
  count_fits = ok.count_fits;
  texts = ok.texts;
  popup_texts = ok.popup_texts;
  ticks_fit = omega arith;
  buffers = ok.buffers;
}

pub ui_clear_history-IsUi : (u : Ui) → IsUi u → IsUi (ui_clear_history u)
unfolding ui_clear_history
ui_clear_history-IsUi u ok = record {
  five = refl;
  count_fits = omega arith;
  texts = initial_ui-IsUi.texts;
  popup_texts = ok.popup_texts;
  ticks_fit = ok.ticks_fit;
  buffers = ok.buffers;
}

-- On a valid state, toggling the history, closing the popup, clearing the history, the CIRCLE
-- button, one popup tick and the swap of the frame buffers each give a valid state, in which the
-- two frame buffers are still the two regions of the video memory.
pub ui_operations-IsUi :
    (u : Ui)
    → IsUi u
    → IsUi (ui_toggle_history u)
      × IsUi (ui_close_active_popup u)
      × IsUi (ui_clear_history u)
      × IsUi (ui_handle_circle_press u)
      × IsUi (tick_popup u)
      × IsUi (swap_buffers u)
unfolding ui_handle_circle_press ui_close_active_popup tick_popup swap_buffers
ui_operations-IsUi u ok = (
  ui_toggle_history-IsUi u ok,
  ui_close_active_popup-IsUi u ok,
  ui_clear_history-IsUi u ok,
  if_intro IsUi u.popup_active _ _ (ui_close_active_popup-IsUi u ok)
      (if_intro IsUi u.showing_history _ u (ui_clear_history-IsUi u ok) ok),
  if_intro IsUi u.popup_active _ u (if_intro IsUi (ltb 0 u.popup_ticks) _ _ ticked closed) ok,
  swapped,
)
  where
    ticked : IsUi (record u { popup_ticks = u.popup_ticks - 1 })
    ticked = record {
      five = ok.five;
      count_fits = ok.count_fits;
      texts = ok.texts;
      popup_texts = ok.popup_texts;
      ticks_fit = let fits : u.popup_ticks ≤ 500 = ok.ticks_fit in omega arith;
      buffers = ok.buffers;
    }

    closed : IsUi (record u { popup_active = false })
    closed = record {
      five = ok.five;
      count_fits = ok.count_fits;
      texts = ok.texts;
      popup_texts = ok.popup_texts;
      ticks_fit = ok.ticks_fit;
      buffers = ok.buffers;
    }

    swapped : IsUi (record u { disp_buf = u.draw_buf; draw_buf = u.disp_buf })
    swapped = record {
      five = ok.five;
      count_fits = ok.count_fits;
      texts = ok.texts;
      popup_texts = ok.popup_texts;
      ticks_fit = ok.ticks_fit;
      buffers = ground (arith, ok.buffers);
    }

-- What the CIRCLE button means, from one state to the next.
pub data CirclePress (u v : Ui) : Type 0 where
  closes_popup :
      u.popup_active ≡ true → v.popup_active ≡ false → shown v ≡ shown u → CirclePress u v
  empties_history :
      u.popup_active ≡ false
      → u.showing_history ≡ true
      → shown v ≡ []
      → v.showing_history ≡ true
      → CirclePress u v
  does_nothing : u.popup_active ≡ false → u.showing_history ≡ false → v ≡ u → CirclePress u v

-- The CIRCLE button closes a popup and then leaves the history alone; without a popup it empties
-- the history if the drawer is open, and does nothing if it is not.
pub ui_handle_circle_press_effect : (u : Ui) → CirclePress u (ui_handle_circle_press u)
unfolding ui_handle_circle_press ui_clear_history
ui_handle_circle_press_effect u = elim (Bool-cases u.popup_active) [
  | inl up ↦ closes_popup up (rw up) (rw up)
  | inr down ↦ elim (Bool-cases u.showing_history) [
    | inl open_drawer ↦
        empties_history down open_drawer (rw (down, open_drawer)) (rw (down, open_drawer))
    | inr closed ↦ does_nothing down closed (rw (down, closed))
  ]
]

-- The popup's part of a number of frames.
abbrev pub popup_frames : ℕ → Ui → Ui
popup_frames zero u = u
popup_frames (suc k) u = popup_frames k (tick_popup u)

closed_stays : (k : ℕ) (u : Ui) → u.popup_active ≡ false → (popup_frames k u).popup_active ≡ false
unfolding tick_popup
closed_stays zero u e = e
closed_stays (suc k) u e = closed_stays k _ (ground arith)

-- One frame of an active popup.
tick_more :
    (u : Ui)
    → u.popup_active ≡ true
    → 0 < u.popup_ticks
    → ((tick_popup u).popup_active ≡ true) × ((tick_popup u).popup_ticks + 1 ≡ u.popup_ticks)
unfolding tick_popup
tick_more u up h = ground arith

tick_last :
    (u : Ui) → u.popup_active ≡ true → u.popup_ticks ≡ 0 → (tick_popup u).popup_active ≡ false
unfolding tick_popup
tick_last u up h = ground arith

-- A popup that is up with `t` ticks left is still up after `k` frames exactly if `k` is at most
-- `t`.
pub popup_lifetime :
    (k : ℕ) (u : Ui) → u.popup_active ≡ true → (popup_frames k u).popup_active ≡ leb k u.popup_ticks
popup_lifetime zero u up = up ∙ ground arith
popup_lifetime (suc k) u up = elim (dec_lt 0 u.popup_ticks) [
  | yes more ↦
      let (active, ticks) = tick_more u up more in
      popup_lifetime k (tick_popup u) active ∙ ground (arith, ticks)
  | no last ↦ closed_stays k (tick_popup u) (tick_last u up (omega arith)) ∙ ground (arith, last)
]
