-- ===== src/Host/Http/Socket.antt =====
-- The listening socket of apps/desktop/src/http_server.cpp.
--
-- The functions of the operating system are the record `Sockets` over an abstract state `W`.
use psp_dev_link.Base.{ℤ, pos, negsuc, is_neg, Bool, true, false, if◌then◌else◌}

pub record Sockets (W : Type 0) : Type 0 where
  pub socket : W → ℤ × W
  -- `setsockopt` with SO_REUSEADDR
  pub reuse_address : ℤ → W → ℤ × W
  pub bind : ℤ → ℤ → W → ℤ × W
  pub listen : ℤ → W → ℤ × W
  pub start_thread : W → W
  -- `connect` to the server's own port.
  pub connect : ℤ → ℤ → W → W
  pub join : W → W
  pub close : ℤ → W → W

-- `m_port`, `m_server_fd` and `m_running`
pub record Listening : Type 0 where
  pub port : ℤ
  pub server_fd : ℤ
  pub running : Bool

-- The constructor.
abbrev pub not_listening : Listening
not_listening = record { port = pos 8080; server_fd = negsuc 0; running = false }

pub record Started (W : Type 0) : Type 0 where
  pub success : Bool
  pub listening : Listening
  pub after : W

module _ {W : Type 0} (os : Sockets W) where
  open os use {socket, reuse_address, bind, listen, start_thread, connect, join, close}

  -- The socket is closed after an error.
  unfoldable pub abandon : ℤ → Listening → W → Started W
  abandon fd l w = record {
    success = false;
    listening = record l { server_fd = negsuc 0 };
    after = close fd w;
  }

  unfoldable pub listen_on : ℤ → Listening → W → Started W
  unfolding abandon
  listen_on fd l w =
      let (opt, w1) = reuse_address fd w in
      let (bound, w2) = bind fd l.port w1 in
      let (listened, w3) = listen fd w2 in
      if is_neg opt
      then abandon fd l w1
      else if is_neg bound
      then abandon fd l w2
      else if is_neg listened
      then abandon fd l w3
      else record {
        success = true;
        listening = record l { running = true };
        after = start_thread w3;
      }

  unfoldable pub start : ℤ → Listening → W → Started W
  unfolding listen_on
  start port l w =
      let (fd, w1) = socket w in
      let l1 : Listening = record l { port = port; server_fd = fd } in
      if is_neg fd
      then record { success = false; listening = l1; after = w1 }
      else listen_on fd l1 w1

  -- A connection of its own wakes the thread up.
  unfoldable pub wake : Listening → W → W
  wake l w = let (dummy, w1) = socket w in close l.server_fd (close dummy (connect dummy l.port w1))

  unfoldable pub stop : Listening → W → Listening × W
  unfolding wake
  stop l w =
      if l.running
      then (if is_neg l.server_fd
          then (record l { running = false }, join w)
          else (record l { running = false; server_fd = negsuc 0 }, join (wake l w)))
      else (l, w)
