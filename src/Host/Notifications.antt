-- ===== src/Host/Notifications.antt =====
-- apps/desktop/src/notification_service.cpp: the notifications of the desktop, from the output of
-- dbus-monitor or, without it, made up.
--
-- The thread of `run_listener` is one function per iteration: what `select`, `fgets` and the clock
-- give is its argument, and what `dbus-monitor` writes until it ends is a text, of which each
-- `fgets` takes the next piece: a line, or 511 characters of a longer one.
pub mod Laws
pub mod Reading
use psp_dev_link.Base.{
  ℕ, zero, suc, ◌+◌, ◌-◌, ◌*◌, ◌/◌, ◌%◌, List, [], ◌∷◌, ◌++◌, Option, none, some, take, drop,
  get_elem?, ◌>>=◌, Bool, true, false, ltb, leb, ◌==◌, ◌||◌, if◌then◌else◌, ℤ, pos, negsuc, codes,
  is_neg,
}
use psp_dev_link.Host.Text.{find, rfind_char}

pub record NotificationMetrics : Type 0 where
  pub app_name : List ℕ
  pub summary : List ℕ
  pub body : List ℕ
  pub is_new : Bool

abbrev pub Queue : Type 0
Queue = List NotificationMetrics

abbrev pub nothing_new : NotificationMetrics
nothing_new = record { app_name = []; summary = []; body = []; is_new = false }

-- The front of the queue and the rest of it.
unfoldable pub get_latest : Queue → NotificationMetrics × Queue
get_latest [] = (nothing_new, [])
get_latest (m ∷ q) = (m, q)

unfoldable pub push_mock_notification : List ℕ → List ℕ → List ℕ → Queue → Queue
push_mock_notification app title msg q =
    q ++ (record { app_name = app; summary = title; body = msg; is_new = true } ∷ [])

-- The locals of `run_listener`, and the queue that it shares.
pub record Listener : Type 0 where
  pub use_fallback : Bool
  pub last_mock_time : ℕ
  pub mock_index : ℕ
  pub app_name : List ℕ
  pub summary : List ℕ
  pub body : List ℕ
  pub string_index : ℤ
  pub in_notify : Bool
  pub queue : Queue

-- The locals before the loop, from whether `popen` gives a pipe and from the clock.
unfoldable pub listen : Bool → ℕ → Queue → Listener
listen opened now q = record {
  use_fallback = if opened then false else true;
  last_mock_time = now;
  mock_index = 0;
  app_name = [];
  summary = [];
  body = [];
  string_index = negsuc 0;
  in_notify = false;
  queue = q;
}

-- `line.find(text) != std::string::npos`
abbrev pub found : Option ℕ → Bool
found none = false
found (some n) = true

abbrev pub contains : List ℕ → List ℕ → Bool
contains text line = found (find text line)

abbrev pub is_index : ℕ → ℤ → Bool
is_index k (pos n) = n == k
is_index k (negsuc n) = false

abbrev pub next_index : ℤ → ℤ
next_index (pos n) = pos (n + 1)
next_index (negsuc zero) = pos 0
next_index (negsuc (suc n)) = negsuc n

-- A string argument of the call, by its index.
unfoldable pub take_value : List ℕ → Listener → Listener
unfolding push_mock_notification
take_value value s =
    let counted : Listener = record s { string_index = next_index s.string_index } in
    if is_index 0 s.string_index
    then record counted { app_name = value }
    else if is_index 1 s.string_index
    then counted
    else if is_index 2 s.string_index
    then record counted { summary = value }
    else if is_index 3 s.string_index
    then record counted {
      body = value;
      queue = push_mock_notification s.app_name s.summary value s.queue;
      in_notify = false;
    }
    else counted

-- From the positions of the text before the value and of the last quotation mark on.
unfoldable pub hear_value : ℕ → Option ℕ → List ℕ → Listener → Listener
unfolding take_value
hear_value str_pos none line s = s
hear_value str_pos (some end_pos) line s =
    if ltb (str_pos + 8) end_pos
    then take_value (take (end_pos - (str_pos + 8)) (drop (str_pos + 8) line)) s
    else s

unfoldable pub hear_argument : Option ℕ → List ℕ → Listener → Listener
unfolding hear_value rfind_char
hear_argument (some str_pos) line s = hear_value str_pos (rfind_char b'"' line) line s
hear_argument none line s =
    if contains (codes "method call") line || contains (codes "signal") line
    then record s { in_notify = false }
    else s

-- One line of the output.
unfoldable pub hear_line : List ℕ → Listener → Listener
unfolding hear_argument find
hear_line line s =
    if contains (codes "member=Notify") line
    then record s { in_notify = true; string_index = pos 0; app_name = []; summary = []; body = [] }
    else if s.in_notify
    then hear_argument (find (codes "string \"") line) line s
    else s

abbrev pub Mock : Type 0
Mock = List ℕ × List ℕ × List ℕ

abbrev pub mocks : List Mock
mocks =
    (
      codes "Slack",
      codes "New message from @alex",
      codes "Hey, did you finish compiling the PSP EBOOT?",
    )
    ∷ (codes "GitHub", codes "PR #42 Approved", codes "User approved Milestone 8 merge request")
    ∷ (codes "System", codes "Low battery warning", codes "Battery level is currently at 12%")
    ∷ (codes "Terminal", codes "Build Success", codes "Target EBOOT.PBP compiled in 4.2 seconds")
    ∷ []

-- The clock counts nanoseconds. There is no mock beyond the end of the list.
unfoldable pub push_mock : Option Mock → ℕ → Listener → Option Listener
unfolding push_mock_notification
push_mock none now s = none
push_mock (some (app, title, msg)) now s = some (record s {
  queue = push_mock_notification app title msg s.queue;
  mock_index = (s.mock_index + 1) % 4;
  last_mock_time = now;
})

unfoldable pub fall_back : ℕ → Listener → Option Listener
unfolding push_mock
fall_back now s =
    if leb 10 ((now - s.last_mock_time) / 1000000000)
    then push_mock (get_elem? mocks s.mock_index) now s
    else some s

-- `fgets` into a buffer for this many characters and a NUL: what it stores, and what is left.
unfoldable pub fgets : ℕ → List ℕ → List ℕ × List ℕ
fgets zero text = ([], text)
fgets (suc room) [] = ([], [])
fgets (suc room) (c ∷ text) =
    let (line, rest) = fgets room text in if c == b'\n' then (c ∷ [], text) else (c ∷ line, rest)

-- `std::string line(line_buf)` ends before the first NUL.
unfoldable pub until_nul : List ℕ → List ℕ
until_nul [] = []
until_nul (c ∷ line) = let rest = until_nul line in if c == 0 then [] else c ∷ rest

-- What a read of the pipe does, and what it leaves in it; at the end `fgets` gives NULL.
unfoldable pub hear : List ℕ → Listener → Listener × List ℕ
unfolding hear_line
hear [] s = (record s { use_fallback = true }, [])
hear (c ∷ text) s = let (line, rest) = fgets 511 (c ∷ text) in (hear_line (until_nul line) s, rest)

-- What `select` gave.
pub data Selected : Type 0 where
  failed timeout readable : Selected

-- What is done when there is a pipe.
unfoldable pub listened : Selected → List ℕ → Listener → Listener × List ℕ
unfolding hear
listened Selected.failed text s = (record s { use_fallback = true }, text)
listened Selected.timeout text s = (s, text)
listened Selected.readable text s = hear text s

-- One iteration of the loop, on what the pipe still has to give.
unfoldable pub iterate : ℕ → Selected → List ℕ → Listener → Option (Listener × List ℕ)
unfolding fall_back listened
iterate now selected text s =
    let made_up = fall_back now s >>= λ s'. some (s', text) in
    if s.use_fallback then made_up else some (listened selected text s)
