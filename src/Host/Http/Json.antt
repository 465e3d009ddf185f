-- ===== src/Host/Http/Json.antt =====
-- The answer of apps/desktop/src/http_server.cpp to a request for the status.
use psp_dev_link.Base.{ℕ, List, [], ◌∷◌, ◌++◌, ℤ, codes, Bool, ◌&&◌, if◌then◌else◌}
use psp_dev_link.Host.Text.{text_eq, print_int, is_empty}
use psp_dev_link.Host.Config.{ConfigService}

pub record SharedLogEntry : Type 0 where
  pub message : List ℕ
  pub type : List ℕ

pub record SharedTelemetry : Type 0 where
  pub cpu_usage : ℤ
  pub ram_usage : ℤ
  pub cpu_temp : ℤ
  pub ram_total : ℤ
  pub ram_free : ℤ

pub record SharedGit : Type 0 where
  pub branch : List ℕ
  pub modified : ℤ
  pub untracked : ℤ

-- What the server shows.
pub record Status : Type 0 where
  pub connection_state : List ℕ
  pub config : ConfigService
  pub telemetry : SharedTelemetry
  pub has_telemetry : Bool
  pub git : SharedGit
  pub has_git : Bool
  pub logs : List SharedLogEntry

-- `"    \"name\": " << value`
abbrev pub number_field : List ℕ → ℤ → List ℕ
unfolding print_int
number_field name value = codes "    \"" ++ (name ++ (codes "\": " ++ print_int value))

abbrev pub flag_field : List ℕ → Bool → List ℕ
flag_field name value =
    codes "    \"" ++ (name ++ (codes "\": " ++ (if value then codes "true" else codes "false")))

unfoldable pub config_json : ConfigService → List ℕ
unfolding print_int
config_json c =
    codes "  \"config\": {\n"
    ++ (number_field (codes "telemetry_interval") c.telemetry_interval_ms
        ++ (codes ",\n"
            ++ (number_field (codes "git_interval") c.git_interval_ms
                ++ (codes ",\n"
                    ++ (flag_field (codes "enable_git") c.enable_git
                        ++ (codes ",\n"
                            ++ (flag_field (codes "enable_notif") c.enable_notif
                                ++ codes "\n  }")))))))

unfoldable pub telemetry_json : SharedTelemetry → List ℕ
unfolding print_int
telemetry_json t =
    codes ",\n  \"telemetry\": {\n"
    ++ (number_field (codes "cpu_usage") t.cpu_usage
        ++ (codes ",\n"
            ++ (number_field (codes "ram_usage") t.ram_usage
                ++ (codes ",\n"
                    ++ (number_field (codes "cpu_temp") t.cpu_temp
                        ++ (codes ",\n"
                            ++ (number_field (codes "ram_total") t.ram_total
                                ++ (codes ",\n"
                                    ++ (number_field (codes "ram_free") t.ram_free
                                        ++ codes "\n  }")))))))))

unfoldable pub git_json : SharedGit → List ℕ
unfolding print_int
git_json g =
    codes ",\n  \"git\": {\n    \"branch\": \""
    ++ (g.branch
        ++ (codes "\",\n"
            ++ (number_field (codes "modified") g.modified
                ++ (codes ",\n"
                    ++ (number_field (codes "untracked") g.untracked ++ codes "\n  }")))))

unfoldable pub log_json : SharedLogEntry → List ℕ
log_json e =
    codes "    { \"message\": \""
    ++ (e.message ++ (codes "\", \"type\": \"" ++ (e.type ++ codes "\" }")))

unfoldable pub logs_json : List SharedLogEntry → List ℕ
unfolding log_json
logs_json [] = []
logs_json (e ∷ es) =
    log_json e ++ ((if is_empty es then [] else codes ",") ++ (b'\n' ∷ logs_json es))

unfoldable pub status_json : Status → List ℕ
unfolding config_json telemetry_json git_json logs_json text_eq
status_json s =
    let connected = text_eq s.connection_state (codes "CONNECTED") in
    codes "{\n  \"connection_state\": \""
    ++ (s.connection_state
        ++ (codes "\",\n"
            ++ (config_json s.config
                ++ ((if connected && s.has_telemetry then telemetry_json s.telemetry else [])
                    ++ ((if connected && s.has_git then git_json s.git else [])
                        ++ (codes ",\n  \"logs\": [\n" ++ (logs_json s.logs ++ codes "  ]\n}")))))))
