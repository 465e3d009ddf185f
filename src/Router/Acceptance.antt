-- ===== src/Router/Acceptance.antt =====
-- Which packets `router_dispatch` of apps/psp/src/message_router.c accepts, and what it leaves alone.
use psp_dev_link.Base.{
  ℕ, ◌+◌, ◌≤◌, ◌<◌, ◌≡◌, ◌≢◌, ◌⊎◌, refl, List, ◌∷◌, Option, some, ℤ, pos, negsuc, is_neg, true,
  false, length, ltb, ◌==◌, if◌then◌else◌, Bool-cases, inl, inr, get_elem?-total, arith,
}
use psp_dev_link.Wire.{IsBytes}
use psp_dev_link.Packet.{PacketHeader}
use psp_dev_link.Payload.SystemStats.{system_stats_size}
use psp_dev_link.Payload.SystemStats.Laws.{deserialize_system_stats-Decodes, stats_calls_refuse}
use psp_dev_link.Payload.GitStatus.{git_status_size}
use psp_dev_link.Payload.GitStatus.Laws.{deserialize_git_status-Decodes, git_calls_refuse}
use psp_dev_link.Payload.Notification.{notification_size}
use psp_dev_link.Payload.Notification.Laws.{
  deserialize_notification-Decodes, notification_calls_refuse,
}
use psp_dev_link.Payload.Control.{control_size, deserialize_control}
use psp_dev_link.Router.{
  Router, LogLine, dispatch_stats, dispatch_git, dispatch_notification, dispatch_control,
  router_dispatch, IsRouter,
}

-- The bytes that a packet with this identifier has to announce: the sizes of the fields and of the
-- arrays of characters of its kind, and none for a packet that is none of the four.
abbrev pub required : ℕ → ℕ
required id =
    if id == 3
    then 1 + 1 + 2 + 8 + 8
    else if id == 4
    then 4 + 4 + 32
    else if id == 5
    then 24 + 52 + 52
    else if id == 6
    then 1
    else 0

-- Only the globals of the packet's own kind may differ.
pub record Keeps (id : ℕ) (r after : Router) : Type 0 where
  pub stats_kept : id ≢ 3 → after.current_stats ≡ r.current_stats
  pub git_kept : id ≢ 4 → after.current_git ≡ r.current_git
  pub notif_kept : id ≢ 5 → after.current_notif ≡ r.current_notif
  pub flag_kept : id ≢ 5 → after.new_notification_received ≡ r.new_notification_received
  pub command_kept : id ≢ 6 → after.remote_command ≡ r.remote_command

-- A packet that announces enough is accepted with 0 and logs nothing; one that announces too little
-- is refused with a negative code, and changes nothing but the log, by one line.
abbrev pub Settled : ℕ → ℕ → ℤ → Router → Router → Type 0
Settled id size code r after =
    ((required id ≤ size) × (code ≡ pos 0) × (after.log ≡ r.log))
    ⊎ ((size < required id)
        × (is_neg code ≡ true)
        × ((line : LogLine) × (after ≡ record r { log = line ∷ r.log })))

pub record Answers (id size : ℕ) (r : Router) (result : Option (ℤ × Router)) : Type 0 where
  pub code : ℤ
  pub after : Router
  pub returns : result ≡ some (code, after)
  pub settled : Settled id size code r after
  pub keeps : Keeps id r after

-- Another line in the log alters none of the globals for data.
log-Keeps : (id : ℕ) (line : LogLine) (r : Router) → Keeps id r (record r { log = line ∷ r.log })
log-Keeps id line r = record {
  stats_kept = λ n. refl;
  git_kept = λ n. refl;
  notif_kept = λ n. refl;
  flag_kept = λ n. refl;
  command_kept = λ n. refl;
}

too_short : (n m k : ℕ) → k ≡ m → ltb n m ≡ true → n < k
too_short n m k e short = ground (arith, e, short)

long_enough : (n m k : ℕ) → k ≡ m → ltb n m ≡ false → k ≤ n
long_enough n m k e enough = ground (arith, e, enough)

module _ (id size : ℕ) (buf : List ℕ) (r : Router) (ok : IsRouter r) (bytes : IsBytes buf)
    (room : 128 ≤ length buf) where
  open ok use {git_valid, notif_valid}

  refused :
      (result : Option (ℤ × Router)) (code : ℤ) (line : LogLine)
      → result ≡ some (code, record r { log = line ∷ r.log })
      → is_neg code ≡ true
      → size < required id
      → Answers id size r result
  refused result code line e negative short = record {
    code = code;
    after = record r { log = line ∷ r.log };
    returns = e;
    settled = inr (short, negative, (line, refl));
    keeps = log-Keeps id line r;
  }

  dispatch_stats-Answers : id ≡ 3 → Answers id size r (dispatch_stats size buf r)
  unfolding dispatch_stats
  dispatch_stats-Answers e =
      let need : required id ≡ 20 = rw e refl in
      elim (Bool-cases (ltb size system_stats_size)) [
        | inl short ↦
            refused _ (negsuc 1) (LogLine.stats_failed (negsuc 0))
              (rw ((stats_calls_refuse (some r.current_stats) (some buf) size short).1)) refl
              (too_short size 20 (required id) need short)
        | inr enough ↦
            let d =
              deserialize_system_stats-Decodes buf r.current_stats size bytes (ground arith)
                (omega arith) in
            record {
              code = pos 0;
              after = record r { current_stats = d.stats };
              returns = rw d.returns;
              settled = inl (long_enough size 20 (required id) need enough, refl, refl);
              keeps = record {
                stats_kept = λ n. absurd (n e);
                git_kept = λ n. refl;
                notif_kept = λ n. refl;
                flag_kept = λ n. refl;
                command_kept = λ n. refl;
              };
            }
      ]

  dispatch_git-Answers : id ≡ 4 → Answers id size r (dispatch_git size buf r)
  unfolding dispatch_git
  dispatch_git-Answers e =
      let need : required id ≡ 40 = rw e refl in
      elim (Bool-cases (ltb size git_status_size)) [
        | inl short ↦
            refused _ (negsuc 2) (LogLine.git_failed (negsuc 0))
              (rw ((git_calls_refuse (some r.current_git) (some buf) size short).1)) refl
              (too_short size 40 (required id) need short)
        | inr enough ↦
            let d =
              deserialize_git_status-Decodes buf r.current_git size bytes git_valid.name_length
                (ground arith) (omega arith) in
            record {
              code = pos 0;
              after = record r { current_git = d.git };
              returns = rw d.returns;
              settled = inl (long_enough size 40 (required id) need enough, refl, refl);
              keeps = record {
                stats_kept = λ n. refl;
                git_kept = λ n. absurd (n e);
                notif_kept = λ n. refl;
                flag_kept = λ n. refl;
                command_kept = λ n. refl;
              };
            }
      ]

  dispatch_notification-Answers : id ≡ 5 → Answers id size r (dispatch_notification size buf r)
  unfolding dispatch_notification
  dispatch_notification-Answers e =
      let need : required id ≡ 128 = rw e refl in
      elim (Bool-cases (ltb size notification_size)) [
        | inl short ↦
            refused _ (negsuc 3) (LogLine.notification_failed (negsuc 0))
              (rw ((notification_calls_refuse (some r.current_notif) (some buf) size short).1)) refl
              (too_short size 128 (required id) need short)
        | inr enough ↦
            let d =
              deserialize_notification-Decodes buf r.current_notif size notif_valid (ground arith)
                room in
            record {
              code = pos 0;
              after = record r { current_notif = d.notif; new_notification_received = 1 };
              returns = rw d.returns;
              settled = inl (long_enough size 128 (required id) need enough, refl, refl);
              keeps = record {
                stats_kept = λ n. refl;
                git_kept = λ n. refl;
                notif_kept = λ n. absurd (n e);
                flag_kept = λ n. absurd (n e);
                command_kept = λ n. refl;
              };
            }
      ]

  dispatch_control-Answers : id ≡ 6 → Answers id size r (dispatch_control size buf r)
  unfolding dispatch_control deserialize_control
  dispatch_control-Answers e =
      let need : required id ≡ 1 = rw e refl in
      elim (Bool-cases (ltb size control_size)) [
        | inl short ↦
            refused _ (negsuc 4) (LogLine.control_failed (negsuc 0)) (rw short) refl
              (too_short size 1 (required id) need short)
        | inr enough ↦
            let (command, at0) = get_elem?-total buf 0 (omega arith) in
            record {
              code = pos 0;
              after = record r { remote_command = command };
              returns = rw (enough, at0);
              settled = inl (long_enough size 1 (required id) need enough, refl, refl);
              keeps = record {
                stats_kept = λ n. refl;
                git_kept = λ n. refl;
                notif_kept = λ n. refl;
                flag_kept = λ n. refl;
                command_kept = λ n. absurd (n e);
              };
            }
      ]

-- For every header, a payload buffer of at least 128 bytes and valid globals: the dispatch accepts
-- the packet, with 0 and no line in the log, exactly if the announced size is enough for its kind,
-- which it always is for a packet that is none of the four; a packet that is refused changes
-- nothing but the log; and one that is accepted changes no global but those of its own kind.
pub router_dispatch-Answers :
    (header : PacketHeader) (buf : List ℕ) (r : Router)
    → IsRouter r
    → IsBytes buf
    → 128 ≤ length buf
    → Answers header.message_id header.payload_size r (router_dispatch (some header) (some buf) r)
unfolding router_dispatch
router_dispatch-Answers header buf r ok bytes room = elim (Bool-cases (id == 3)) [
  | inl e ↦ rw e (dispatch_stats-Answers id size buf r ok bytes room (ground arith))
  | inr a ↦ elim (Bool-cases (id == 4)) [
    | inl e ↦ rw (a, e) (dispatch_git-Answers id size buf r ok bytes room (ground arith))
    | inr b ↦ elim (Bool-cases (id == 5)) [
      | inl e ↦
          rw (a, b, e) (dispatch_notification-Answers id size buf r ok bytes room (ground arith))
      | inr c ↦ elim (Bool-cases (id == 6)) [
        | inl e ↦
            rw (a, b, c, e) (dispatch_control-Answers id size buf r ok bytes room (ground arith))
        | inr d ↦ record {
          code = pos 0;
          after = r;
          returns = rw (a, b, c, d);
          settled = inl (ground arith, refl, refl);
          keeps = record {
            stats_kept = λ n. refl;
            git_kept = λ n. refl;
            notif_kept = λ n. refl;
            flag_kept = λ n. refl;
            command_kept = λ n. refl;
          };
        }
      ]
    ]
  ]
]
  where
    size : ℕ
    size = header.payload_size

    id : ℕ
    id = header.message_id
