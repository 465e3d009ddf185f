-- ===== src/Router/Tests.antt =====
-- Runs of apps/psp/src/message_router.c on concrete packets, and its theorems applied to them.
use psp_dev_link.Base.{ℕ, zero, suc, ◌≡◌, refl, [], ◌∷◌, ◌++◌, some, pos, replicate, arith}
use psp_dev_link.Wire.{IsBytes}
use psp_dev_link.Packet.{PacketHeader}
use psp_dev_link.Payload.Notification.{NotificationPayload, IsNotification}
use psp_dev_link.Payload.Control.{deserialize_control}
use psp_dev_link.Router.{IsRouter, router_dispatch, dispatch_control, initial_router}
use psp_dev_link.Router.Laws.{Dispatches, initial_router-IsRouter, router_dispatch-IsRouter}
use psp_dev_link.Router.Acceptance.{Answers, router_dispatch-Answers}
use psp_dev_link.Router.Delivery.{Message, message_bytes, deliver, router_dispatch-deliver}

abbrev header : ℕ → ℕ → PacketHeader
header id size = record {
  magic = 0x5053;
  protocol_version = 256;
  message_id = id;
  payload_size = size;
}

abbrev mail : NotificationPayload
mail = record {
  app_name = b'm' ∷ b'a' ∷ b'i' ∷ b'l' ∷ replicate 20 0;
  summary = b'h' ∷ b'i' ∷ replicate 50 0;
  body = replicate 52 b'x';
}

mail_valid : IsNotification mail
mail_valid = record { name_length = refl; summary_length = refl; body_length = refl }

garbage-IsBytes : (n : ℕ) → IsBytes (replicate n 200)
garbage-IsBytes zero = tt
garbage-IsBytes (suc n) = (omega arith, garbage-IsBytes n)

reboot_command :
    router_dispatch (some (header 6 1)) (some (2 ∷ [])) initial_router
    ≡ some (pos 0, record initial_router { remote_command = 2 })
unfolding router_dispatch dispatch_control deserialize_control
reboot_command = refl

router_dispatch-IsRouter_example :
    Dispatches IsRouter
      (router_dispatch (some (header 5 128)) (some (replicate 512 200)) initial_router)
router_dispatch-IsRouter_example =
    router_dispatch-IsRouter (header 5 128) (replicate 512 200) initial_router
      initial_router-IsRouter (garbage-IsBytes 512) (omega arith)

router_dispatch-deliver_example :
    router_dispatch
      (some (header 5 128))
      (some (message_bytes (Message.notification mail) ++ replicate 384 7))
      initial_router
    ≡ some (pos 0, deliver (Message.notification mail) initial_router)
router_dispatch-deliver_example =
    router_dispatch-deliver (Message.notification mail) (header 5 128) (replicate 384 7)
      initial_router mail_valid initial_router-IsRouter refl (omega arith)

router_dispatch-Answers_example :
    Answers 5 127 initial_router
      (router_dispatch (some (header 5 127)) (some (replicate 512 200)) initial_router)
router_dispatch-Answers_example =
    router_dispatch-Answers (header 5 127) (replicate 512 200) initial_router
      initial_router-IsRouter (garbage-IsBytes 512) (omega arith)
