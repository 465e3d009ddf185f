-- ===== src/Transport/Tests.antt =====
-- A kernel whose device opens, and the theorems on apps/psp/src/transport_usb.c applied to it.
use psp_dev_link.Base.{ℕ, refl, [], none, some, pos, negsuc, arith}
use psp_dev_link.Driver.{UsbBus, Driver, loaded_driver}
use psp_dev_link.Driver.Laws.{BulkOut}
use psp_dev_link.Transport.{Kernel, initial_transport, transport_initialize, transport_receive}
use psp_dev_link.Transport.Laws.{
  IsInitialized, attempts, through, ReceivesBytes, transport_initialize-IsInitialized,
  transport_receive-ReceivesBytes,
}

-- A bus on which every receive fails.
abbrev dead_bus : UsbBus ℕ
dead_bus = record {
  create_event_flag = λ w. (pos 7, w);
  set_event_flag = λ e n w. w;
  delete_event_flag = λ e w. w;
  writeback = λ n w. w;
  invalidate = λ n w. w;
  bbd_register = λ w. (pos 0, w);
  bbd_unregister = λ w. w;
  req_send = λ bytes w. (record { ret = pos 0; recvsize = pos 0; arrived = [] }, w);
  req_recv = λ n w. (record { ret = negsuc 0; recvsize = pos 0; arrived = [] }, w);
  add_drv = λ w. w;
  del_drv = λ w. w;
}

abbrev kernel : Kernel (Driver × ℕ)
kernel = record {
  io_open = λ w. (pos 3, w);
  load_module = λ w. (pos 1, w);
  start_module = λ m w. (pos 0, w);
  ioctl = λ fd q w. through dead_bus q w;
  usb_start_bus = λ w. (pos 0, w);
  usb_start_driver = λ w. (pos 0, w);
  delay_thread = λ n w. w;
  usb_activate = λ p w. (pos 0, w);
}

dead_bus_out : BulkOut dead_bus
dead_bus_out = record { fits = λ n w. omega arith; bytes = λ n w. tt; counts = λ n w e. refl }

transport_receive-ReceivesBytes_example :
    ReceivesBytes 12
      (record initial_transport { io_fd = pos 3 })
      (transport_receive kernel 12 (record initial_transport { io_fd = pos 3 }) (loaded_driver, 0))
transport_receive-ReceivesBytes_example =
    transport_receive-ReceivesBytes dead_bus dead_bus_out kernel (λ fd q s. refl) 12
      (record initial_transport { io_fd = pos 3 }) loaded_driver 0 (omega arith)
      (record { tx_size = refl; rx_size = refl })

-- A kernel with no driver for the device: the module cannot be loaded either.
abbrev bare : Kernel ℕ
bare = record {
  io_open = λ w. (negsuc 0, w);
  load_module = λ w. (negsuc 4, w);
  start_module = λ m w. (pos 0, w);
  ioctl = λ fd q w. some (record { ret = negsuc 0; copied = []; received = none }, w);
  usb_start_bus = λ w. (pos 0, w);
  usb_start_driver = λ w. (pos 0, w);
  delay_thread = λ n w. w;
  usb_activate = λ p w. (pos 0, w);
}

transport_initialize-IsInitialized_example :
    IsInitialized
      (attempts bare (λ fd w. (_, w, refl)) 0)
      (transport_initialize bare initial_transport 0)
transport_initialize-IsInitialized_example =
    transport_initialize-IsInitialized bare (λ fd w. (_, w, refl)) initial_transport 0 refl
