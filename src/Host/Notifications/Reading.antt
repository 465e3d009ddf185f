-- ===== src/Host/Notifications/Reading.antt =====
-- The loop of `run_listener` in apps/desktop/src/notification_service.cpp over the text that
-- dbus-monitor writes for a call of Notify.
use psp_dev_link.Base.{
  ℕ, zero, suc, ◌≡◌, List, [], ◌∷◌, ◌++◌, Option, some, ◌>>=◌, Bool, true, false, not, ◌==◌, ◌&&◌,
  if◌then◌else◌,
}
use psp_dev_link.Host.Text.{is_empty}
use psp_dev_link.Host.Notifications.{Listener, Selected, iterate}

-- A text that ends with its only newline, without a NUL, and is no longer than this.
abbrev pub is_line : ℕ → List ℕ → Bool
is_line zero l = false
is_line (suc room) [] = false
is_line (suc room) (c ∷ l) =
    let rest = is_line room l in if c == b'\n' then is_empty l else not (c == 0) && rest

abbrev pub IsLine : List ℕ → Type 0
IsLine l = is_line 511 l ≡ true

abbrev pub AreLines : List (List ℕ) → Type 0
AreLines [] = Unit
AreLines (l ∷ ls) = IsLine l × AreLines ls

-- The lines behind one another, and what follows them.
abbrev pub followed : List (List ℕ) → List ℕ → List ℕ
followed [] later = later
followed (l ∷ ls) later = l ++ followed ls later

-- This many iterations in which `select` finds the pipe readable.
abbrev pub rounds : ℕ → ℕ → List ℕ → Listener → Option (Listener × List ℕ)
rounds zero now text s = some (s, text)
rounds (suc n) now text s =
    iterate now Selected.readable text s >>= λ (s', rest). rounds n now rest s'

-- The pipe is still in use, or not, as before.
record IsMode (u : Bool) (s : Listener) : Type 0 where
  same : s.use_fallback ≡ u
