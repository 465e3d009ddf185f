-- ===== src/Lib.antt =====
-- PSP DevLink: the program that runs on the PSP, its kernel driver, its companion on the host and
-- the protocol that they share.
--
-- The host sends packets over USB: a header of twelve bytes and a payload. The kernel driver
-- moves bulk transfers between the bus and the application; the transport wraps the driver's
-- ioctls; the main loop receives one packet per iteration, answers the HELLO of the handshake,
-- hands other packets to the router, forwards new notifications to the user interface and draws a
-- frame. The router stores the latest telemetry, git status, notification and command, and the
-- frame shows them. The host looks for the device, shakes hands with the console, and sends it
-- telemetry, the state of a git working tree, notifications and commands, each at its interval; a
-- failed transfer starts the search again. A dashboard in the browser shows the state, changes the
-- settings, which a file keeps, and posts commands for the console.
--
-- Which file models what, with paths from the repository's root:
--   Base and its children: arrays with checked accesses (`load`, `store`, `memset`), Boolean tests,
--     shifts and `|` on numbers, a signed integer, list lemmas.
--   Wire: the little-endian fields of 16, 32 and 64 bits that all of shared/protocol/src uses.
--   Packet: shared/protocol/src/packet.c (`serialize_header` is `pspl_serialize_header`, and so on).
--   Payload: shared/protocol/src/payload.c, a child per payload; Payload/Chars has the loops over
--     characters and `strcmp`.
--   Router: apps/psp/src/message_router.c; Router/Delivery is its specification on messages,
--     and Router/Acceptance says which packets it accepts.
--   Ui: apps/psp/src/ui.c. Ui itself is the state and its functions; Ui/Draw, Ui/Popup, Ui/Drawer,
--     Ui/Cards, Ui/Ticker and Ui/Frame are the parts of `ui_draw_popup` and `ui_render`, as lists of
--     the calls of the debug screen; Ui/History and Ui/State are about its functions.
--   Driver: apps/psp/driver/pspdl_driver_kernel.c; `io_ioctl` is `pspdl_io_ioctl`, with a function
--     per case; Driver/Descriptors has the USB descriptors, and Driver/Enumeration follows them as
--     a USB host does.
--   Transport: apps/psp/src/transport_usb.c.
--   App: the loop of `main` in apps/psp/src/main.c; `iterate` is one iteration, and `fetch_payload`
--     in App/Payload is the loop that reads a payload. App/State, App/Packets and App/Loop
--     reason about an iteration, in this order; App/Connection is about the handshake and the watchdog, and
--     App/Usb puts the transport and the kernel driver under the loop.
--   Payload/Calls: what the pairs of functions of shared/protocol/src have in common.
--   Host: apps/desktop/src. Host/Text has the functions of std::string and of streams that it uses,
--     on texts as lists of character codes. Host/Config is config_service.cpp, Host/Git
--     git_service.cpp, Host/System system_service.cpp, Host/Notifications notification_service.cpp, with the pieces that fgets reads,
--     Host/Transport transport_usb.cpp and Host/Http http_server.cpp, with children for the
--     parameters of a request, the status as JSON and the listening socket. Host/Frames has the
--     packets that main.cpp builds, Host/Main its state and the first half of an iteration,
--     Host/Main/Loop the rest; `iterate` there is one iteration. Host/Main/Laws, Host/Main/Shake,
--     Host/Main/Work and Host/Main/Iteration reason about it, part by part, and Host/Main/Trace has
--     the runs of the program, as steps of the loop, the dashboard and the listener; Host/Main/Commands
--     is about a command on its way from the dashboard to the console. Host/Main/Link is the transport as
--     the loop uses it, Host/Main/Usb fills it with the transport on libusb. Host/Session puts host
--     and console on one connection, Host/Session/Handshake is about their HELLOs, and
--     Host/Session/Repeated about a host that repeats its own.
--
-- Conventions. A pointer that may be NULL is an `Option`. A function that accesses an array
-- returns an `Option` whose `none` is an access outside the array, a text that does not end inside
-- its array, or a loop that is out of fuel. Unsigned integers are natural numbers that the conversions reduce; -1 is `negsuc 0`. The
-- functions of the PSP kernel are parameters: the records `UsbBus` of Driver and `Kernel` of Transport,
-- over an abstract state. What is assumed of a received transfer is `BulkOut` in Driver/Laws and of
-- the registration calls `Counts` in Driver/Registration. The main loop sees the transport as the record
-- `Link`, with its promises in `SoundLink` of App/Payload/Laws. On the host, libusb is the record
-- `Libusb` of Host/Transport, with what is assumed of it in `CountsResources` of Host/Transport/Laws;
-- the sockets are the record `Sockets`, and the loop sees the transport as `HostLink`, with its
-- promises in `SoundHostLink`. What the clock, the C library and the commands of git give is an
-- argument. The threads of the listener and of the dashboard act between the iterations of the
-- loop: an iteration, an iteration of the listener and a request are one step each. `none` as the answer
-- to a request is an exception that ends the program.
--
-- The only loop of the program on fuel is `fetch_payload`: each round either receives a byte or counts one of a
-- hundred idle rounds, so a payload's size plus 101 is enough. The digits of a number in Host/Text
-- have fuel for as many digits as the number, and one more.
--
-- Not modelled: the thread for the exit callback, the setup of the controller and the display, the
-- number formatting of `printf`, on the host the terminal's messages, the exit when the server does not start
-- and the text of the page in index_html.h, which is an argument, the copies of PSPLINK in reference, which nothing here builds,
-- test_hello and the scripts. The state of the buttons is an argument of an iteration.
pub mod App
pub mod Base
pub mod Driver
pub mod Host
pub mod Packet
pub mod Payload
pub mod Router
pub mod Transport
pub mod Ui
pub mod Wire
