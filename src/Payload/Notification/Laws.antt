-- ===== src/Payload/Notification/Laws.antt =====
-- Writing and reading the notification payload (shared/protocol/src/payload.c).
use psp_dev_link.Base.{
  ℕ, ◌+◌, ◌≤◌, ◌≡◌, refl, true, List, [], ◌∷◌, ◌++◌, Option, none, some, ℤ, pos, negsuc, ◌>>=◌,
  length, take, drop, replicate, ltb, ◌||◌, is_null, ltb-eq-false, length-append, length-take,
  length-drop, arith, ap, sym, ◌∙◌,
}
use mathlib.Core.List.{append_assoc}
use psp_dev_link.Payload.Chars.{copy_until_nul, c_string, nul_padded}
use psp_dev_link.Payload.Chars.Laws.{
  read_chars_lem, read_chars-nul_padded, length-nul_padded, c_string-nul_padded,
  copy_until_nul-cleared, memset-field, IsTerminated-append_nul,
}
use psp_dev_link.Payload.Notification.{
  notification_size, NotificationPayload, serialize_notification, deserialize_notification,
  IsNotification, HasTexts, trim_notification, notification_bytes,
}

module _ (n : NotificationPayload) (rest : List ℕ) (ok : IsNotification n) where
  open ok use {name_length, summary_length, body_length}

  abbrev name : List ℕ
  name = nul_padded 23 n.app_name

  abbrev title : List ℕ
  title = nul_padded 51 n.summary

  abbrev text : List ℕ
  text = nul_padded 51 n.body

  -- The buffer after each of the three loops, from the cleared buffer on.
  name_stored :
      copy_until_nul 23 0 0 n.app_name (replicate 128 0 ++ rest)
      ≡ some (nul_padded 23 n.app_name ++ (replicate 104 0 ++ rest))
  name_stored =
      copy_until_nul-cleared 23 24 0 n.app_name [] (replicate 104 0 ++ rest) (omega arith)
        (omega arith) refl

  summary_stored :
      copy_until_nul 51 0 24 n.summary (nul_padded 23 n.app_name ++ (replicate 104 0 ++ rest))
      ≡ some (nul_padded 23 n.app_name ++ (nul_padded 51 n.summary ++ (replicate 52 0 ++ rest)))
  summary_stored =
      copy_until_nul-cleared 51 52 24 n.summary (nul_padded 23 n.app_name) (replicate 52 0 ++ rest)
        (omega arith) (omega arith) (length-nul_padded 23 n.app_name)

  before_body_length : length (nul_padded 23 n.app_name ++ nul_padded 51 n.summary) ≡ 76
  before_body_length = omega (
    arith,
    length-append (nul_padded 23 n.app_name) (nul_padded 51 n.summary),
    length-nul_padded 23 n.app_name,
    length-nul_padded 51 n.summary,
  )

  body_stored :
      copy_until_nul 51 0 76 n.body
        (nul_padded 23 n.app_name ++ (nul_padded 51 n.summary ++ (replicate 52 0 ++ rest)))
      ≡ some (notification_bytes n ++ rest)
  body_stored =
      ap (λ l. copy_until_nul 51 0 76 n.body l)
        (sym (append_assoc name title (replicate 52 0 ++ rest)))
      ∙ copy_until_nul-cleared 51 52 76 n.body (name ++ title) rest (omega arith) (omega arith)
          before_body_length
      ∙ ap some (
          append_assoc name title (text ++ rest)
          ∙ ap (λ l. name ++ l) (sym (append_assoc title text rest))
          ∙ sym (append_assoc name (title ++ text) rest))

  -- The three fields as they stand in the finished buffer.
  name_field : notification_bytes n ++ rest ≡ [] ++ (name ++ ((title ++ text) ++ rest))
  name_field = append_assoc name (title ++ text) rest

  summary_field : notification_bytes n ++ rest ≡ name ++ (title ++ (text ++ rest))
  summary_field = name_field ∙ ap (λ l. name ++ l) (append_assoc title text rest)

  body_field : notification_bytes n ++ rest ≡ (name ++ title) ++ (text ++ rest)
  body_field = summary_field ∙ sym (append_assoc name title (text ++ rest))

pub serialize_notification_lem :
    (n : NotificationPayload) (buf : List ℕ) (size : ℕ)
    → IsNotification n
    → notification_size ≤ size
    → size ≤ length buf
    → serialize_notification (some n) (some buf) size
      ≡ some (pos 0, some (notification_bytes n ++ drop 128 buf))
unfolding serialize_notification
serialize_notification_lem n buf size ok enough there =
    rw (ltb-eq-false size notification_size enough) (
      rw (memset-field 128 0 0 [] buf (omega arith) refl) (
        rw (
          name_stored n (drop 128 buf) ok,
          summary_stored n (drop 128 buf) ok,
          body_stored n (drop 128 buf) ok,
        )))

pub deserialize-notification_bytes :
    (n old : NotificationPayload) (rest : List ℕ) (size : ℕ)
    → IsNotification n
    → IsNotification old
    → notification_size ≤ size
    → deserialize_notification (some (notification_bytes n ++ rest)) size (some old)
      ≡ some (pos 0, some (trim_notification n))
unfolding deserialize_notification
deserialize-notification_bytes n old rest size ok fits enough = rw (
  ltb-eq-false size notification_size enough,
  read_chars-nul_padded 23 0 n.app_name [] ((title ++ text) ++ rest) old.app_name
      (notification_bytes n ++ rest) (name_field n rest ok) refl fits.name_length,
  read_chars-nul_padded 51 24 n.summary name (text ++ rest) old.summary
      (notification_bytes n ++ rest) (summary_field n rest ok) (length-nul_padded 23 n.app_name)
      fits.summary_length,
  read_chars-nul_padded 51 76 n.body (name ++ title) rest old.body (notification_bytes n ++ rest)
      (body_field n rest ok) (before_body_length n rest ok) fits.body_length,
)
  where
    name : List ℕ
    name = nul_padded 23 n.app_name

    title : List ℕ
    title = nul_padded 51 n.summary

    text : List ℕ
    text = nul_padded 51 n.body

-- A notification whose arrays have their lengths comes back with each text as the same C string,
-- cut at 23, 51 and 51 characters and padded with NULs: with at least 128 bytes on both sides,
-- deserialising what was serialised returns 0, whatever the buffer and the out-parameter, with its
-- arrays of these lengths, held before.
pub notification_round_trip :
    (n old : NotificationPayload) (buf : List ℕ) (size : ℕ)
    → IsNotification n
    → IsNotification old
    → notification_size ≤ size
    → size ≤ length buf
    → ((serialize_notification (some n) (some buf) size >>= λ r.
          deserialize_notification r.1 size (some old))
        ≡ some (pos 0, some (trim_notification n)))
      × (c_string 23 (trim_notification n).app_name ≡ c_string 23 n.app_name)
      × (c_string 51 (trim_notification n).summary ≡ c_string 51 n.summary)
      × (c_string 51 (trim_notification n).body ≡ c_string 51 n.body)
notification_round_trip n old buf size ok fits enough there = (
  rw (serialize_notification_lem n buf size ok enough there)
      (deserialize-notification_bytes n old (drop 128 buf) size ok fits enough),
  c_string-nul_padded 23 n.app_name,
  c_string-nul_padded 51 n.summary,
  c_string-nul_padded 51 n.body,
)

-- What a call on 128 or more bytes gives back, for any bytes.
pub record DecodesNotification (buf : List ℕ) (result : Option (ℤ × Option NotificationPayload))
    : Type 0 where
  pub notif : NotificationPayload
  pub returns : result ≡ some (pos 0, some notif)
  pub in_range : IsNotification notif
  pub texts : HasTexts notif
  pub app_name_terminated : notif.app_name ≡ take 23 buf ++ (0 ∷ [])
  pub summary_terminated : notif.summary ≡ take 51 (drop 24 buf) ++ (0 ∷ [])
  pub body_terminated : notif.body ≡ take 51 (drop 76 buf) ++ (0 ∷ [])

length-taken :
    (k off : ℕ) (buf : List ℕ)
    → off + k ≤ length buf
    → length (take k (drop off buf) ++ (0 ∷ [])) ≡ k + 1
length-taken k off buf h = omega (
  arith,
  length-append (take k (drop off buf)) (0 ∷ []),
  length-take k (drop off buf),
  length-drop off buf,
)

-- On a buffer of at least 128 arbitrary bytes the call never leaves it: with `size` at least 128 it
-- returns 0, and each text is the characters of its field with a NUL behind them, so it is
-- terminated even if the sender's was not.
pub deserialize_notification-Decodes :
    (buf : List ℕ) (old : NotificationPayload) (size : ℕ)
    → IsNotification old
    → notification_size ≤ size
    → 128 ≤ length buf
    → DecodesNotification buf (deserialize_notification (some buf) size (some old))
unfolding deserialize_notification
deserialize_notification-Decodes buf old size fits enough there = record {
  notif = record {
    app_name = take 23 buf ++ (0 ∷ []);
    summary = take 51 (drop 24 buf) ++ (0 ∷ []);
    body = take 51 (drop 76 buf) ++ (0 ∷ []);
  };
  returns = rw (
    ltb-eq-false size notification_size enough,
    read_chars_lem 23 0 buf old.app_name fits.name_length (omega arith),
    read_chars_lem 51 24 buf old.summary fits.summary_length (omega arith),
    read_chars_lem 51 76 buf old.body fits.body_length (omega arith),
  );
  in_range = record {
    name_length = length-taken 23 0 buf (omega arith);
    summary_length = length-taken 51 24 buf (omega arith);
    body_length = length-taken 51 76 buf (omega arith);
  };
  texts = record {
    name_ends = IsTerminated-append_nul (take 23 buf);
    summary_ends = IsTerminated-append_nul (take 51 (drop 24 buf));
    body_ends = IsTerminated-append_nul (take 51 (drop 76 buf));
  };
  app_name_terminated = refl;
  summary_terminated = refl;
  body_terminated = refl;
}

-- A NULL record, a NULL buffer or fewer than 128 bytes: both functions return -1, read and write
-- nothing, and leave the object behind the out-pointer as it was.
pub notification_calls_refuse :
    (n : Option NotificationPayload) (buf : Option (List ℕ)) (size : ℕ)
    → (is_null n || is_null buf || ltb size notification_size) ≡ true
    → (serialize_notification n buf size ≡ some (negsuc 0, buf))
      × (deserialize_notification buf size n ≡ some (negsuc 0, n))
unfolding serialize_notification deserialize_notification
notification_calls_refuse none none size e = (refl, refl)
notification_calls_refuse none (some buf) size e = (refl, refl)
notification_calls_refuse (some n) none size e = (refl, refl)
notification_calls_refuse (some n) (some buf) size e = (rw e, rw e)
