-- ===== src/Router/Laws.antt =====
-- `router_dispatch` of apps/psp/src/message_router.c on arbitrary packets, and on those that it
-- ignores or refuses.
use psp_dev_link.Base.{
  ℕ, ◌≤◌, ◌≡◌, ◌≢◌, refl, List, ◌∷◌, Option, some, ℤ, pos, negsuc, length, ltb, ◌==◌, if_intro,
  Bool-cases, inl, inr, get_elem?-total, arith,
}
use psp_dev_link.Wire.{IsBytes}
use psp_dev_link.Wire.Laws.{IsBytes-get_elem?}
use psp_dev_link.Packet.{PacketHeader, MessageId, message_code}
use psp_dev_link.Payload.SystemStats.{system_stats_size}
use psp_dev_link.Payload.SystemStats.Laws.{deserialize_system_stats-Decodes, stats_calls_refuse}
use psp_dev_link.Payload.GitStatus.{git_status_size}
use psp_dev_link.Payload.GitStatus.Laws.{deserialize_git_status-Decodes, git_calls_refuse}
use psp_dev_link.Payload.Notification.{notification_size}
use psp_dev_link.Payload.Notification.Laws.{
  deserialize_notification-Decodes, notification_calls_refuse,
}
use psp_dev_link.Payload.Control.{control_size, deserialize_control}
use psp_dev_link.Router.{
  Router, LogLine, dispatch_stats, dispatch_git, dispatch_notification, dispatch_control,
  router_dispatch, IsRouter, initial_router,
}

pub initial_router-IsRouter : IsRouter initial_router
initial_router-IsRouter = record {
  stats_valid = record {
    cpu_fits = omega arith;
    ram_fits = omega arith;
    temp_fits = omega arith;
    total_fits = omega arith;
    free_fits = omega arith;
  };
  git_valid = record {
    modified_fits = omega arith;
    untracked_fits = omega arith;
    name_length = refl;
  };
  notif_valid = record { name_length = refl; summary_length = refl; body_length = refl };
  git_name_ends = tt;
  notif_texts = record { name_ends = tt; summary_ends = tt; body_ends = tt };
  command_fits = omega arith;
}

-- A call that returns, with its code and the globals after it.
pub record Dispatches (valid : Router → Type 0) (result : Option (ℤ × Router)) : Type 0 where
  pub code : ℤ
  pub after : Router
  pub returns : result ≡ some (code, after)
  pub keeps : valid after

module _ (size : ℕ) (buf : List ℕ) (r : Router) (ok : IsRouter r) (bytes : IsBytes buf)
    (room : 128 ≤ length buf) where
  open ok use {stats_valid, git_valid, notif_valid, git_name_ends, notif_texts, command_fits}

  dispatch_stats-IsRouter : Dispatches IsRouter (dispatch_stats size buf r)
  unfolding dispatch_stats
  dispatch_stats-IsRouter = elim (Bool-cases (ltb size system_stats_size)) [
    | inl short ↦ record {
      code = negsuc 1;
      after = record r { log = LogLine.stats_failed (negsuc 0) ∷ r.log };
      returns = rw ((stats_calls_refuse (some r.current_stats) (some buf) size short).1);
      keeps = record {
        stats_valid = stats_valid;
        git_valid = git_valid;
        notif_valid = notif_valid;
        git_name_ends = git_name_ends;
        notif_texts = notif_texts;
        command_fits = command_fits;
      };
    }
    | inr enough ↦
        let d =
          deserialize_system_stats-Decodes buf r.current_stats size bytes (ground arith)
            (omega arith) in
        record {
          code = pos 0;
          after = record r { current_stats = d.stats };
          returns = rw d.returns;
          keeps = record {
            stats_valid = d.in_range;
            git_valid = git_valid;
            notif_valid = notif_valid;
            git_name_ends = git_name_ends;
            notif_texts = notif_texts;
            command_fits = command_fits;
          };
        }
  ]

  dispatch_git-IsRouter : Dispatches IsRouter (dispatch_git size buf r)
  unfolding dispatch_git
  dispatch_git-IsRouter = elim (Bool-cases (ltb size git_status_size)) [
    | inl short ↦ record {
      code = negsuc 2;
      after = record r { log = LogLine.git_failed (negsuc 0) ∷ r.log };
      returns = rw ((git_calls_refuse (some r.current_git) (some buf) size short).1);
      keeps = record {
        stats_valid = stats_valid;
        git_valid = git_valid;
        notif_valid = notif_valid;
        git_name_ends = git_name_ends;
        notif_texts = notif_texts;
        command_fits = command_fits;
      };
    }
    | inr enough ↦
        let d =
          deserialize_git_status-Decodes buf r.current_git size bytes git_valid.name_length
            (ground arith) (omega arith) in
        record {
          code = pos 0;
          after = record r { current_git = d.git };
          returns = rw d.returns;
          keeps = record {
            stats_valid = stats_valid;
            git_valid = d.in_range;
            notif_valid = notif_valid;
            git_name_ends = d.name_ends;
            notif_texts = notif_texts;
            command_fits = command_fits;
          };
        }
  ]

  dispatch_notification-IsRouter : Dispatches IsRouter (dispatch_notification size buf r)
  unfolding dispatch_notification
  dispatch_notification-IsRouter = elim (Bool-cases (ltb size notification_size)) [
    | inl short ↦ record {
      code = negsuc 3;
      after = record r { log = LogLine.notification_failed (negsuc 0) ∷ r.log };
      returns = rw ((notification_calls_refuse (some r.current_notif) (some buf) size short).1);
      keeps = record {
        stats_valid = stats_valid;
        git_valid = git_valid;
        notif_valid = notif_valid;
        git_name_ends = git_name_ends;
        notif_texts = notif_texts;
        command_fits = command_fits;
      };
    }
    | inr enough ↦
        let d =
          deserialize_notification-Decodes buf r.current_notif size notif_valid (ground arith)
            room in
        record {
          code = pos 0;
          after = record r { current_notif = d.notif; new_notification_received = 1 };
          returns = rw d.returns;
          keeps = record {
            stats_valid = stats_valid;
            git_valid = git_valid;
            notif_valid = d.in_range;
            git_name_ends = git_name_ends;
            notif_texts = d.texts;
            command_fits = command_fits;
          };
        }
  ]

  dispatch_control-IsRouter : Dispatches IsRouter (dispatch_control size buf r)
  unfolding dispatch_control deserialize_control
  dispatch_control-IsRouter = elim (Bool-cases (ltb size control_size)) [
    | inl short ↦ record {
      code = negsuc 4;
      after = record r { log = LogLine.control_failed (negsuc 0) ∷ r.log };
      returns = rw short;
      keeps = record {
        stats_valid = stats_valid;
        git_valid = git_valid;
        notif_valid = notif_valid;
        git_name_ends = git_name_ends;
        notif_texts = notif_texts;
        command_fits = command_fits;
      };
    }
    | inr enough ↦
        let (command, at0) = get_elem?-total buf 0 (omega arith) in
        record {
          code = pos 0;
          after = record r { remote_command = command };
          returns = rw (enough, at0);
          keeps = record {
            stats_valid = stats_valid;
            git_valid = git_valid;
            notif_valid = notif_valid;
            git_name_ends = git_name_ends;
            notif_texts = notif_texts;
            command_fits = IsBytes-get_elem? buf 0 bytes at0;
          };
        }
  ]

-- For every header, whatever identifier and payload size it announces, a payload buffer of at
-- least 128 bytes and valid globals, the dispatch returns, never leaves the buffer, and leaves the
-- globals valid.
pub router_dispatch-IsRouter :
    (header : PacketHeader) (buf : List ℕ) (r : Router)
    → IsRouter r
    → IsBytes buf
    → 128 ≤ length buf
    → Dispatches IsRouter (router_dispatch (some header) (some buf) r)
unfolding router_dispatch
router_dispatch-IsRouter header buf r ok bytes room =
    if_intro D (id == 3) (dispatch_stats size buf r) _
      (dispatch_stats-IsRouter size buf r ok bytes room)
      (if_intro D (id == 4) (dispatch_git size buf r) _
        (dispatch_git-IsRouter size buf r ok bytes room)
        (if_intro D (id == 5) (dispatch_notification size buf r) _
          (dispatch_notification-IsRouter size buf r ok bytes room)
          (if_intro D (id == 6) (dispatch_control size buf r) _
            (dispatch_control-IsRouter size buf r ok bytes room) ignored)))
  where
    size : ℕ
    size = header.payload_size

    id : ℕ
    id = header.message_id

    D : Option (ℤ × Router) → Type 0
    D = Dispatches IsRouter

    ignored : D (some (pos 0, r))
    ignored = record { code = pos 0; after = r; returns = refl; keeps = ok }

-- A packet whose identifier is none of the four kinds, such as HELLO, HEARTBEAT or an unknown one,
-- is accepted with 0 and changes no global.
pub router_dispatch-ignores :
    (header : PacketHeader) (buf : List ℕ) (r : Router)
    → header.message_id ≢ message_code MessageId.system_stats
    → header.message_id ≢ message_code MessageId.git_status
    → header.message_id ≢ message_code MessageId.notification
    → header.message_id ≢ message_code MessageId.control
    → router_dispatch (some header) (some buf) r ≡ some (pos 0, r)
unfolding router_dispatch
router_dispatch-ignores header buf r a b c d = ground arith
