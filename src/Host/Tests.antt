-- ===== src/Host/Tests.antt =====
-- The theorems on apps/desktop/src, applied to concrete settings, texts and devices.
mod Devices
use psp_dev_link.Base.{
  ℕ, ◌+◌, ◌^◌, ◌<◌, ◌≤◌, ◌≡◌, refl, List, [], ◌∷◌, ◌++◌, Option, none, some, ℤ, pos, Bool, true,
  false, codes, length, arith,
}
use psp_dev_link.Host.Text.{text_eq, starts_with, trim, lines, trim_front, trim_back}
use psp_dev_link.Host.Config.{ConfigService, File, default_config, load, save}
use psp_dev_link.Host.Config.Laws.{IsConfig, load-save}
use psp_dev_link.Host.Git
use psp_dev_link.Host.Git.{GitOutput}
use psp_dev_link.Host.Git.Laws.{count, is_modified, get_metrics-Counted}
use psp_dev_link.Host.Git.{is_untracked, is_entry}
use psp_dev_link.Host.System
use psp_dev_link.Host.System.{Readings, SystemService, Thermal, no_ticks}
use psp_dev_link.Host.System.Laws.{get_metrics-percentages}
use psp_dev_link.Host.Notifications.{Listener, listen}
use psp_dev_link.Host.Http.{
  HttpServer, new_server, post_config, post_control, check_and_clear_exit, add_log,
}
use psp_dev_link.Host.Http.Params.{get_query_param}
use psp_dev_link.Host.Http.Json.{SharedLogEntry}
use psp_dev_link.Host.Http.Laws.{add_logs, latest, add_logs-latest}
use psp_dev_link.Host.Http.Requests.{Holds, Persists, post_config-Persists}

default_fits : IsConfig default_config
default_fits = record {
  telemetry_fits = omega arith;
  git_fits = omega arith;
  notif_fits = omega arith;
}

abbrev new_file : File
new_file = record { contents = none; writable = true }

load-save_example :
    load default_config (save default_config new_file)
    ≡ (default_config, save default_config new_file)
load-save_example = load-save default_config default_config new_file default_fits refl

abbrev server : HttpServer
server = record {
  config = default_config;
  file = new_file;
  connection_state = codes "DISCONNECTED";
  telemetry = record {
    cpu_usage = pos 0;
    ram_usage = pos 0;
    cpu_temp = pos 0;
    ram_total = pos 0;
    ram_free = pos 0;
  };
  has_telemetry = false;
  git = record { branch = codes "--"; modified = pos 0; untracked = pos 0 };
  has_git = false;
  logs = [];
  trigger_exit = false;
  trigger_reboot = false;
}

abbrev form : List ℕ
form = codes "telemetry_interval=250&git_interval=4000&enable_git=0"

post_config-Persists_example : Holds (Persists default_config) (post_config form server)
post_config-Persists_example = post_config-Persists form server default_config default_fits refl

abbrev entries : List SharedLogEntry
entries = record { message = codes "started"; type = codes "info" } ∷ []

add_logs-latest_example : (add_logs entries server).logs ≡ latest 100 ([] ++ entries)
add_logs-latest_example = add_logs-latest entries server (omega arith)

abbrev status : GitOutput
status = record {
  inside_work_tree = codes "true\n";
  abbrev_ref = codes "main\n";
  porcelain = codes " M src/packet.c\n?? notes.txt\n";
}

inside : text_eq (trim status.inside_work_tree) (codes "true") ≡ true
unfolding text_eq trim
inside = refl

few_lines : length (lines status.porcelain) < 2 ^ 32
unfolding lines
few_lines = omega arith

get_metrics-Counted_example :
    ((Git.get_metrics status).modified_files ≡ count is_modified (lines status.porcelain))
    × ((Git.get_metrics status).untracked_files ≡ count is_untracked (lines status.porcelain))
    × ((Git.get_metrics status).modified_files + (Git.get_metrics status).untracked_files
        ≡ count is_entry (lines status.porcelain))
    × ((Git.get_metrics status).is_repository ≡ true)
get_metrics-Counted_example = get_metrics-Counted status inside few_lines

abbrev readings : Readings
readings = record {
  stat = some (record { user = 40; user_low = 0; sys = 10; idle = 50 });
  mem_opened = some (8000000, 2000000);
  thermal = Thermal.no_zone;
}

abbrev service : SystemService
service = record { last = no_ticks; simulated_temp = 385 }

get_metrics-percentages_example :
    ((System.get_metrics readings service).1.cpu_usage ≤ 100)
    × ((System.get_metrics readings service).1.ram_usage ≤ 100)
get_metrics-percentages_example =
    get_metrics-percentages readings service
      (omega arith, omega arith, omega arith, omega arith, omega arith) (omega arith)

abbrev first : List ℕ
first = codes "method call interface=org.freedesktop.Notifications; member=Notify\n"

abbrev number : List ℕ
number = codes "   uint32 0\n"

abbrev listener : Listener
listener = record {
  use_fallback = false;
  last_mock_time = 0;
  mock_index = 0;
  app_name = [];
  summary = [];
  body = [];
  string_index = pos 0;
  in_notify = false;
  queue = [];
}

-- The lines that open the arrays of the actions and of the hints, of which there is one.
abbrev opening : List (List ℕ)
opening =
    codes "   array [\n" ∷ codes "   ]\n" ∷ codes "   array [\n" ∷ codes "      dict entry(\n" ∷ []
