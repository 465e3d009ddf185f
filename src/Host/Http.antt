-- ===== src/Host/Http.antt =====
-- apps/desktop/src/http_server.cpp: the dashboard's server, its shared state and its answers.
--
-- A request is handled by one function from the text that `recv` leaves in the buffer; the page
-- of index_html.h is an argument. The mutex makes each operation one step of the state.
pub mod Params
pub mod Json
pub mod Socket
pub mod Laws
pub mod Requests
use psp_dev_link.Base.{
  ℕ, suc, ◌+◌, ◌-◌, List, [], ◌∷◌, ◌++◌, Option, none, some, ℤ, pos, negsuc, ◌>>=◌, drop, length,
  codes, Bool, true, false, ltb, ◌==◌, ◌&&◌, ◌||◌, if◌then◌else◌,
}
use psp_dev_link.Payload.Chars.{c_text}
use psp_dev_link.Host.Text.{text_eq, starts_with, find, print_int, stoi, is_empty}
use psp_dev_link.Host.Config.{ConfigService, File, default_config, save}
use psp_dev_link.Host.Http.Params.{get_query_param, get_post_param, Words, words}
use psp_dev_link.Host.Http.Json.{SharedLogEntry, SharedTelemetry, SharedGit, Status, status_json}

pub record HttpServer : Type 0 where
  pub config : ConfigService
  pub file : File
  pub connection_state : List ℕ
  pub telemetry : SharedTelemetry
  pub has_telemetry : Bool
  pub git : SharedGit
  pub has_git : Bool
  pub logs : List SharedLogEntry
  pub trigger_exit : Bool
  pub trigger_reboot : Bool

-- The constructor; the socket is a module of its own.
unfoldable pub new_server : ConfigService → File → HttpServer
new_server c f = record {
  config = c;
  file = f;
  connection_state = codes "DISCONNECTED";
  telemetry = record {
    cpu_usage = pos 0;
    ram_usage = pos 0;
    cpu_temp = pos 0;
    ram_total = pos 0;
    ram_free = pos 0;
  };
  has_telemetry = false;
  git = record { branch = codes "--"; modified = pos 0; untracked = pos 0 };
  has_git = false;
  logs = [];
  trigger_exit = false;
  trigger_reboot = false;
}

unfoldable pub update_connection_state : List ℕ → HttpServer → HttpServer
update_connection_state state s = record s { connection_state = state }

unfoldable pub update_telemetry : SharedTelemetry → HttpServer → HttpServer
update_telemetry tel s = record s { telemetry = tel; has_telemetry = true }

unfoldable pub update_git : SharedGit → HttpServer → HttpServer
update_git git s = record s { git = git; has_git = true }

unfoldable pub add_log : List ℕ → List ℕ → HttpServer → HttpServer
add_log msg type s =
    let logs : List SharedLogEntry = s.logs ++ (record { message = msg; type = type } ∷ []) in
    record s { logs = if ltb 100 (length logs) then drop 1 logs else logs }

-- `exchange(false)`
unfoldable pub check_and_clear_exit : HttpServer → Bool × HttpServer
check_and_clear_exit s = (s.trigger_exit, record s { trigger_exit = false })

unfoldable pub check_and_clear_reboot : HttpServer → Bool × HttpServer
check_and_clear_reboot s = (s.trigger_reboot, record s { trigger_reboot = false })

-- The status line and the headers in front of a body.
unfoldable pub reply : List ℕ → List ℕ → List ℕ → List ℕ
unfolding print_int
reply status content_type body =
    codes "HTTP/1.1 "
    ++ (status
        ++ (codes "\r\nContent-Type: "
            ++ (content_type
                ++ (codes "\r\nContent-Length: "
                    ++ (print_int (pos (length body))
                        ++ (codes "\r\nConnection: close\r\n\r\n" ++ body))))))

abbrev pub status_of : HttpServer → Status
status_of s = record {
  connection_state = s.connection_state;
  config = s.config;
  telemetry = s.telemetry;
  has_telemetry = s.has_telemetry;
  git = s.git;
  has_git = s.has_git;
  logs = s.logs;
}

-- An interval, where one is posted; `none` is the exception that nothing catches.
unfoldable pub posted_int : List ℕ → ℤ → Option ℤ
unfolding stoi
posted_int text old = if is_empty text then some old else stoi text

unfoldable pub posted_flag : List ℕ → Bool → Bool
unfolding text_eq
posted_flag text old = if is_empty text then old else text_eq text (codes "1")

-- The settings from the body of a request.
unfoldable pub post_settings : List ℕ → ConfigService → Option ConfigService
unfolding get_post_param posted_int posted_flag
post_settings body c = do
  tel ← posted_int (get_post_param body (codes "telemetry_interval")) c.telemetry_interval_ms
  git ← posted_int (get_post_param body (codes "git_interval")) c.git_interval_ms
  some (record c {
    telemetry_interval_ms = tel;
    git_interval_ms = git;
    enable_git = posted_flag (get_post_param body (codes "enable_git")) c.enable_git;
    enable_notif = posted_flag (get_post_param body (codes "enable_notif")) c.enable_notif;
  })

unfoldable pub post_config : List ℕ → HttpServer → Option (List ℕ × HttpServer)
unfolding post_settings reply save
post_config body s = do
  c ← post_settings body s.config
  some (
    reply (codes "200 OK") (codes "application/json") (codes "{ \"result\": \"success\" }"),
    record s { config = c; file = save c s.file },
  )

unfoldable pub control_reply : List ℕ → List ℕ
unfolding reply
control_reply result =
    reply (codes "200 OK") (codes "application/json")
      (codes "{ \"result\": \"" ++ (result ++ codes "\" }"))

unfoldable pub post_control : List ℕ → HttpServer → List ℕ × HttpServer
unfolding get_query_param control_reply text_eq
post_control path s =
    let action = get_query_param path (codes "action") in
    if text_eq action (codes "exit")
    then (control_reply (codes "success"), record s { trigger_exit = true })
    else if text_eq action (codes "reboot")
    then (control_reply (codes "success"), record s { trigger_reboot = true })
    else (control_reply (codes "unknown_action"), s)

-- The text behind the first empty line.
abbrev pub body_at : Option ℕ → List ℕ → List ℕ
body_at none request = []
body_at (some n) request = drop (n + 4) request

-- The answer to a method, a path and a body.
unfoldable pub answer :
    List ℕ → List ℕ → List ℕ → List ℕ → HttpServer → Option (List ℕ × HttpServer)
unfolding text_eq starts_with reply status_json post_config post_control
answer page method path body s =
    if text_eq method (codes "GET")
      && (text_eq path (codes "/") || text_eq path (codes "/index.html"))
    then some (reply (codes "200 OK") (codes "text/html") page, s)
    else if text_eq method (codes "GET") && starts_with (codes "/api/status") path
    then some (reply (codes "200 OK") (codes "application/json") (status_json (status_of s)), s)
    else if text_eq method (codes "POST") && starts_with (codes "/api/config") path
    then post_config body s
    else if text_eq method (codes "POST") && starts_with (codes "/api/control") path
    then some (post_control path s)
    else some (reply (codes "404 Not Found") (codes "text/plain") (codes "404 Not Found"), s)

-- `handle_client` on what `recv` stored; nothing received is not answered.
unfoldable pub handle_client : List ℕ → List ℕ → HttpServer → Option (Option (List ℕ) × HttpServer)
unfolding words find answer
handle_client page [] s = some (none, s)
handle_client page (c ∷ buffer) s =
    let request = c_text (c ∷ buffer) in
    let w : Words = words request in
    let body = body_at (find (codes "\r\n\r\n") request) request in
    answer page w.method w.path body s >>= λ (response, s'). some (some response, s')
