-- ===== src/Driver/Tests.antt =====
-- A small bus, and the theorems on apps/psp/driver/pspdl_driver_kernel.c applied to it.
use psp_dev_link.Base.{
  drop, ◌++◌, ◌∷◌, ℕ, zero, suc, ◌≤◌, ◌≡◌, refl, [], some, ℤ, pos, negsuc, length, replicate, true,
  false, arith,
}
use psp_dev_link.Wire.{IsBytes}
use psp_dev_link.Driver.{
  plain, send_args_size, UsbBus, Driver, Request, recv_args_size, io_ioctl, module_stop,
  loaded_driver, IsDriver, ioctl_init,
}
use psp_dev_link.Driver.Laws.{ioctl_send_lem, BulkOut, Receives, io_ioctl-Receives}
use psp_dev_link.Driver.Registration.{Counts, IsBalanced, Session, here, next, module_stop-balances}

-- The kernel's state: the registrations and unregistrations so far.
abbrev World : Type 0
World = ℕ × ℕ

abbrev least : ℤ → ℕ
least (pos zero) = 0
least (pos (suc n)) = 1
least (negsuc n) = 0

-- A bus on which every call succeeds and every receive delivers one byte, if one fits.
abbrev small_bus : UsbBus World
small_bus = record {
  create_event_flag = λ w. (pos 7, w);
  set_event_flag = λ e n w. w;
  delete_event_flag = λ e w. w;
  writeback = λ n w. w;
  invalidate = λ n w. w;
  bbd_register = λ w. (pos 0, (suc w.0, w.1));
  bbd_unregister = λ w. (w.0, suc w.1);
  req_send = λ bytes w. (record { ret = pos 0; recvsize = pos 0; arrived = [] }, w);
  req_recv = λ n w.
      (record { ret = pos 0; recvsize = pos (least n); arrived = replicate (least n) 42 }, w);
  add_drv = λ w. w;
  del_drv = λ w. w;
}

least_fits : (n : ℕ) → length {A = ℕ} (replicate (least (pos n)) 42) ≤ n
least_fits zero = omega arith
least_fits (suc n) = omega arith

least-IsBytes : (n : ℕ) → IsBytes (replicate (least (pos n)) 42)
least-IsBytes zero = tt
least-IsBytes (suc n) = (omega arith, tt)

least_counts : (n : ℕ) → pos (least (pos n)) ≡ pos (length {A = ℕ} (replicate (least (pos n)) 42))
least_counts zero = refl
least_counts (suc n) = refl

small_bus_out : BulkOut small_bus
small_bus_out = record {
  fits = λ n w. least_fits n;
  bytes = λ n w. least-IsBytes n;
  counts = λ n w e. least_counts n;
}

abbrev small_bus_counts : Counts small_bus
small_bus_counts = record {
  registrations = λ w. w.0;
  unregistrations = λ w. w.1;
  register_counts = λ w. (refl, refl);
  unregister_counts = λ w. (refl, refl);
  send_counts = λ bs w. (refl, refl);
  recv_counts = λ n w. (refl, refl);
  writeback_counts = λ n w. (refl, refl);
  invalidate_counts = λ n w. (refl, refl);
  del_drv_counts = λ w. (refl, refl);
}

loaded-IsDriver : IsDriver loaded_driver
loaded-IsDriver = record { tx_size = refl; rx_size = refl }

ioctl_send_lem_example :
    io_ioctl small_bus
      (Request.send (some (record { bytes = 1 ∷ 2 ∷ 3 ∷ []; size = pos 2 })) send_args_size)
      loaded_driver
      (0, 0)
    ≡ some (
      plain (pos 0),
      record loaded_driver { tx_buf = (1 ∷ 2 ∷ []) ++ drop 2 loaded_driver.tx_buf },
      (0, 0),
    )
ioctl_send_lem_example =
    ioctl_send_lem small_bus (1 ∷ 2 ∷ 3 ∷ []) 2 loaded_driver (0, 0) loaded-IsDriver (omega arith)

io_ioctl-Receives_example : Receives 12 (
    io_ioctl small_bus
      (Request.recv (some (record { size = pos 12; has_received = true })) recv_args_size)
      loaded_driver
      (0, 0))
io_ioctl-Receives_example =
    io_ioctl-Receives small_bus small_bus_out 12 loaded_driver (0, 0) loaded-IsDriver

-- One INIT.
abbrev registered_driver : Driver
registered_driver = record loaded_driver { registered = true }

initialised : Session small_bus small_bus_counts loaded_driver (0, 0) registered_driver (1, 0)
unfolding io_ioctl ioctl_init
initialised = next Request.init _ here refl

module_stop-balances_example :
    IsBalanced small_bus small_bus_counts registered_driver (1, 0)
    × ((module_stop small_bus registered_driver (1, 0)).2.0
        ≡ (module_stop small_bus registered_driver (1, 0)).2.1)
    × ((module_stop small_bus registered_driver (1, 0)).1.registered ≡ false)
module_stop-balances_example = module_stop-balances small_bus small_bus_counts initialised refl
