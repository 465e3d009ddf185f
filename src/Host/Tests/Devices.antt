-- ===== src/Host/Tests/Devices.antt =====
-- Devices and connections for the theorems on the loop of apps/desktop/src/main.cpp.
use psp_dev_link.Base.{
  List, length, ℕ, ◌+◌, ◌-◌, ◌≡◌, ◌==◌, refl, [], none, some, pos, negsuc, Bool, true, false, codes,
  arith, if◌then◌else◌, inl, overwrite,
}
use psp_dev_link.Packet.{header_bytes}
use psp_dev_link.Router.Delivery.{Message, kind, wire_size, message_bytes, deliver}
use psp_dev_link.Transport.{TransportResult, StatusMessage}
use psp_dev_link.App
use psp_dev_link.App.{App, initial_app, receive_packet}
use psp_dev_link.App.State.{IsApp, initial_app-IsApp}
use psp_dev_link.App.Payload.{Link}
use psp_dev_link.Host.System.{no_ticks, Thermal}
use psp_dev_link.Host.Config.{default_config}
use psp_dev_link.Host.Transport.{Libusb, Usb}
use psp_dev_link.Host.Transport.Laws.{CountsResources}
use psp_dev_link.Host.Frames.{frame_header}
use psp_dev_link.Host.Main.Link.{HostLink, SoundHostLink}
use psp_dev_link.Host.Main.Commands.{posted, exit_frame, poll_commands-exit}
use psp_dev_link.Host.Http.Params.{get_query_param}
use psp_dev_link.Host.Main.{poll_commands, launched, ConnectionState, Host, Inputs, goes_on}
use psp_dev_link.Host.Main.Loop.{iterate, handshake}
use psp_dev_link.Host.Main.Laws.{Runs, IsValid}
use psp_dev_link.Host.Main.Trace.{Reach, Step, Reach-Runs}
use psp_dev_link.Host.Config.{File}
use psp_dev_link.Host.Notifications.{push_mock_notification}
use psp_dev_link.Host.Main.Laws.{Open}
use psp_dev_link.Host.Main.Usb.{usb_host, usb_host_sound, iterate-usb_host}
use psp_dev_link.Host.Session.{whole, receive_packet-deliver}
use psp_dev_link.Host.Session.Handshake.{hello_bytes, heard_hello, handshake-connects}

abbrev host : Host
host = record {
  state = ConnectionState.disconnected;
  last_hello_time = 0;
  last_heartbeat_time = 0;
  last_stats_time = 0;
  last_git_time = 0;
  last_notif_time = 0;
  system_service = record { last = no_ticks; simulated_temp = 385 };
  notifications = [];
  server = record {
    config = default_config;
    file = record { contents = none; writable = true };
    connection_state = codes "DISCONNECTED";
    telemetry = record {
      cpu_usage = pos 0;
      ram_usage = pos 0;
      cpu_temp = pos 0;
      ram_total = pos 0;
      ram_free = pos 0;
    };
    has_telemetry = false;
    git = record { branch = codes "--"; modified = pos 0; untracked = pos 0 };
    has_git = false;
    logs = [];
    trigger_exit = false;
    trigger_reboot = false;
  };
}

abbrev inputs : Inputs
inputs = record {
  connect_time = 5000000000;
  hello_time = 5000000100;
  connected_times = (5000000200, 5000000200, 5000000200, 5000000200);
  now = 5000000300;
  readings = record { stat = none; mem_opened = none; thermal = Thermal.no_zone };
  git_output = record { inside_work_tree = []; abbrev_ref = []; porcelain = [] };
}

-- A device that is open or not, takes what it is sent and sends nothing.
abbrev silent : HostLink Bool
silent = record {
  initialize = λ t. (TransportResult.ok, true);
  send = λ bytes n t. (TransportResult.ok, t);
  receive = λ n t. (record { result = TransportResult.ok; received = 0; stored = [] }, t);
  shutdown = λ t. false;
}

abbrev silent_sound : SoundHostLink silent
silent_sound = record {
  Valid = λ b t. t ≡ b;
  initializes = λ t e. inl (refl, refl);
  sends = λ bytes n t there small e. e;
  receives = λ n t small e. (e, omega arith, tt, omega arith);
  shuts_down = λ t e. refl;
}

abbrev settings : File
settings = record { contents = none; writable = true }

-- The state in front of the loop, and that after a first notification.
abbrev begun : Host
begun = launched settings none (1, 2, 3, 4, 5) []

abbrev notified_host : Host
notified_host = record begun {
  notifications =
      push_mock_notification (codes "Mail") (codes "Subject") (codes "Text") begun.notifications;
}

Reach-Runs_example :
    IsValid silent silent_sound notified_host false
    × Runs silent silent_sound
        (Open silent silent_sound)
        (iterate silent inputs notified_host false)
Reach-Runs_example =
    Reach-Runs silent silent_sound settings none (1, 2, 3, 4, 5) [] false notified_host false inputs
      refl
      (Reach.next Reach.here
        (Step.notified (codes "Mail") (codes "Subject") (codes "Text") begun false))

-- How many contexts and handles are open.
record Counters : Type 0 where
  open_contexts : ℕ
  open_handles : ℕ

-- A library that always finds the device, and whose transfers from it time out.
abbrev library : Libusb ℕ ℕ Counters
library = record {
  init = λ c w. (pos 0, some 1, record w { open_contexts = w.open_contexts + 1 });
  set_option = λ c w. w;
  exit = λ c w. record w { open_contexts = w.open_contexts - 1 };
  open_device = λ c w. (some 2, record w { open_handles = w.open_handles + 1 });
  close = λ h w. record w { open_handles = w.open_handles - 1 };
  kernel_driver_active = λ h w. (pos 0, w);
  detach_kernel_driver = λ h w. (pos 0, w);
  claim_interface = λ h w. (pos 0, w);
  release_interface = λ h w. w;
  bulk_out = λ h bytes n w. (pos 0, n, w);
  bulk_in = λ h n w. (record { code = negsuc 6; transferred = pos 0; stored = [] }, w);
}

abbrev library_counts : CountsResources library
library_counts = record {
  contexts = λ w. w.open_contexts;
  handles = λ w. w.open_handles;
  init_ok = λ c w e. (refl, refl, refl);
  init_fails = λ c w e. absurd (ground (arith, e));
  exits = λ c w some_open no_handle. (omega (arith, some_open), no_handle);
  opens = λ c w. (refl, refl);
  closes = λ h w some_open. (refl, omega (arith, some_open));
  sets = λ c w. (refl, refl);
  asks = λ h w. (refl, refl);
  detaches = λ h w. (refl, refl);
  claims = λ h w. (refl, refl);
  releases = λ h w. (refl, refl);
  sends = λ h bytes n w. (refl, refl);
  receives = λ h n w. (refl, refl, omega arith, tt, omega arith);
}

abbrev unopened : Usb ℕ ℕ
unopened = record { handle = none; ctx = none }

abbrev none_open : Counters
none_open = record { open_contexts = 0; open_handles = 0 }

iterate-usb_host_example :
    Runs
      (usb_host library library_counts)
      (usb_host_sound library library_counts)
      (Open (usb_host library library_counts) (usb_host_sound library library_counts))
      (iterate (usb_host library library_counts) inputs host (unopened, none_open))
iterate-usb_host_example =
    iterate-usb_host library library_counts inputs host unopened none_open (omega arith)
      (record { both = refl; no_context_leaks = refl; no_handle_leaks = refl }, refl)

abbrev command : Message
command = Message.control (record { command_id = 1 })

-- A console that is sent the header and the payload of a command, one after the other.
abbrev commanded : Link ℕ
commanded = record {
  receive = λ n t. some (
    whole (
        if t == 0
        then header_bytes (frame_header (kind command) (wire_size command))
        else message_bytes command),
    t + 1,
  );
  send = λ bytes n t. some (TransportResult.ok, t);
  delay_thread = λ n t. t;
  shutdown = λ t. t;
  status_msg = λ t. StatusMessage.waiting_for_host;
}

abbrev paired : App
paired = record initial_app { state = App.ConnectionState.connected }

paired-IsApp : IsApp paired
paired-IsApp = record {
  router_valid = initial_app-IsApp.router_valid;
  ui_valid = initial_app-IsApp.ui_valid;
  room = initial_app-IsApp.room;
  are_bytes = initial_app-IsApp.are_bytes;
  alive = λ e. omega arith;
}

receive_packet-deliver_example :
    receive_packet commanded paired 0
    ≡ some (
      record paired {
        ticks_since_last_packet = 0;
        payload_buf = overwrite 0 (message_bytes command) paired.payload_buf;
        router = deliver command paired.router;
      },
      2,
    )
receive_packet-deliver_example =
    receive_packet-deliver commanded command paired 0 1 2 tt paired-IsApp refl refl refl

-- The two ends of a connection on which both HELLOs arrive.
abbrev host_end : HostLink ℕ
host_end = record {
  initialize = λ t. (TransportResult.ok, t);
  send = λ bytes n t. (TransportResult.ok, t + 1);
  receive = λ n t. (heard_hello, t + 1);
  shutdown = λ t. t;
}

abbrev console_end : Link ℕ
console_end = record {
  receive = λ n t. some (whole hello_bytes, t + 1);
  send = λ bytes n t. some (TransportResult.ok, t + 1);
  delay_thread = λ n t. t;
  shutdown = λ t. t;
  status_msg = λ t. StatusMessage.waiting_for_host;
}

handshake-connects_example :
    (receive_packet console_end initial_app 0
      ≡ some (
        record initial_app { ticks_since_last_packet = 0; state = App.ConnectionState.connected },
        2,
      ))
    × ((h' : Host) × (handshake host_end inputs host 0 ≡ some (goes_on h' 2))
        × (h'.state ≡ ConnectionState.connected))
handshake-connects_example =
    handshake-connects host_end console_end inputs host 0 1 2 initial_app 0 1 2 (omega arith) refl
      refl refl refl refl

abbrev exit_path : List ℕ
exit_path = codes "/api/control?action=exit"

exit_asked : get_query_param exit_path (codes "action") ≡ codes "exit"
unfolding get_query_param
exit_asked = refl

poll_commands-exit_example :
    (h' : Host) × (poll_commands silent (posted exit_path host) true
      ≡ some (goes_on h' (silent.send exit_frame (length exit_frame) true).1))
    × ((h'' : Host) × (poll_commands silent h' true ≡ some (goes_on h'' true)))
poll_commands-exit_example = poll_commands-exit silent exit_path host true true exit_asked refl
