-- ===== src/Ui.antt =====
-- apps/psp/src/ui.c: the state of the user interface and the functions that change it. Flags that
-- the source keeps in an `int` are Booleans. What a frame draws is in the children `Draw`, `Popup`,
-- `Drawer`, `Cards`, `Ticker` and `Frame`.
pub mod History
pub mod State
pub mod Draw
pub mod Popup
pub mod Drawer
pub mod Cards
pub mod Ticker
pub mod Frame
mod Tests
use psp_dev_link.Base.{
  ℕ, zero, suc, ◌+◌, ◌≤◌, ◌≡◌, List, [], Option, none, some, ◌>>=◌, load, store, length, take,
  replicate, ◌-◌, ◌∷◌, ◌⊎◌, Bool, true, false, not, ltb, ◌==◌, if◌then◌else◌,
}
use psp_dev_link.Payload.Chars.{strcmp_eq}
use psp_dev_link.Payload.Notification.{NotificationPayload, HasTexts}
use psp_dev_link.Router.{blank_notification}

pub record Ui : Type 0 where
  pub draw_buf : ℕ
  pub disp_buf : ℕ
  pub notif_history : List NotificationPayload
  pub notif_history_count : ℕ
  pub showing_history : Bool
  pub popup_active : Bool
  pub popup_ticks : ℕ
  pub active_popup_notif : NotificationPayload

abbrev pub initial_ui : Ui
initial_ui = record {
  draw_buf = 0x04000000;
  disp_buf = 0x04088000;
  notif_history = replicate 5 blank_notification;
  notif_history_count = 0;
  showing_history = false;
  popup_active = false;
  popup_ticks = 0;
  active_popup_notif = blank_notification;
}

-- Sets the popup up for 500 ticks.
abbrev pub trigger_popup : NotificationPayload → Ui → Ui
trigger_popup n u = record u { active_popup_notif = n; popup_active = true; popup_ticks = 500 }

-- The three comparisons with the most recent entry, each made only if the one before it agreed.
unfoldable pub same_notification : NotificationPayload → NotificationPayload → Option Bool
same_notification m n = strcmp_eq m.app_name n.app_name >>= λ a.
    (let summaries = strcmp_eq m.summary n.summary >>= λ b.
    (let bodies = strcmp_eq m.body n.body in if b then bodies else some false) in
      if a then summaries else some false)

-- `s_notif_history_count > 0 && strcmp(...) == 0 && ...`
unfoldable pub is_repeat : NotificationPayload → Ui → Option Bool
unfolding same_notification
is_repeat n u =
    let compared = load u.notif_history 0 >>= λ newest. same_notification newest n in
    if ltb 0 u.notif_history_count then compared else some false

-- `for (int i = rounds; i > 0; i--) history[i] = history[i - 1];`
unfoldable pub shift_right : ℕ → List NotificationPayload → Option (List NotificationPayload)
shift_right zero h = some h
shift_right (suc i) h = load h i >>= λ n. store h (suc i) n >>= λ h'. shift_right i h'

unfoldable pub record_notification : NotificationPayload → Ui → Option Ui
unfolding shift_right
record_notification n u = do
  shifted ← shift_right 4 u.notif_history
  entered ← store shifted 0 n
  let count =
      if ltb u.notif_history_count 5 then u.notif_history_count + 1 else u.notif_history_count
  some (trigger_popup n (record u { notif_history = entered; notif_history_count = count }))

unfoldable pub ui_add_notification : Option NotificationPayload → Ui → Option Ui
unfolding is_repeat record_notification
ui_add_notification none u = some u
ui_add_notification (some n) u = do
  first ← load n.app_name 0
  let again = is_repeat n u
  let rest = again >>= λ r.
      (let fresh = record_notification n u in
        if r then some (if u.popup_active then u else trigger_popup n u) else fresh)
  if first == 0 then some u else rest

unfoldable pub ui_toggle_history : Ui → Ui
ui_toggle_history u = record u { showing_history = not u.showing_history }

unfoldable pub ui_close_active_popup : Ui → Ui
ui_close_active_popup u = record u { popup_active = false; popup_ticks = 0 }

unfoldable pub ui_clear_history : Ui → Ui
ui_clear_history u = record u {
  notif_history = replicate 5 blank_notification;
  notif_history_count = 0;
}

unfoldable pub ui_handle_circle_press : Ui → Ui
unfolding ui_clear_history
ui_handle_circle_press u =
    if u.popup_active
    then record u { popup_active = false; popup_ticks = 0 }
    else if u.showing_history
    then ui_clear_history u
    else u

-- The end of `ui_render`: one tick of an active popup.
unfoldable pub tick_popup : Ui → Ui
tick_popup u =
    if u.popup_active
    then (if ltb 0 u.popup_ticks
        then record u { popup_ticks = u.popup_ticks - 1 }
        else record u { popup_active = false })
    else u

-- The swap that ends `ui_render`.
unfoldable pub swap_buffers : Ui → Ui
swap_buffers u = record u { disp_buf = u.draw_buf; draw_buf = u.disp_buf }

-- Every text of the list's entries ends inside its array.
abbrev pub AllTexts : List NotificationPayload → Type 0
AllTexts [] = Unit
AllTexts (n ∷ ns) = HasTexts n × AllTexts ns

-- The history array has five entries, the count is at most that, the texts end, a popup has at most
-- 500 ticks, and the two frame buffers are the two regions of the video memory, one each.
pub record IsUi (u : Ui) : Type 0 where
  pub five : length u.notif_history ≡ 5
  pub count_fits : u.notif_history_count ≤ 5
  pub texts : AllTexts u.notif_history
  pub popup_texts : HasTexts u.active_popup_notif
  pub ticks_fit : u.popup_ticks ≤ 500
  pub buffers :
      ((u.draw_buf ≡ 0x04000000) × (u.disp_buf ≡ 0x04088000))
      ⊎ ((u.draw_buf ≡ 0x04088000) × (u.disp_buf ≡ 0x04000000))

-- The notifications that the history shows, the latest first.
abbrev pub shown : Ui → List NotificationPayload
shown u = take u.notif_history_count u.notif_history
