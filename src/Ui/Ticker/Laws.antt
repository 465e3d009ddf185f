-- ===== src/Ui/Ticker/Laws.antt =====
-- The ticker of apps/psp/src/ui.c: its row and the row's width.
use psp_dev_link.Base.{
  codes, ℕ, ◌+◌, ◌-◌, ◌≤◌, ◌<◌, ◌≡◌, refl, List, [], ◌∷◌, ◌++◌, Option, some, load, length, take,
  ltb, leb, ◌==◌, ◌&&◌, if◌then◌else◌, if_intro, Bool-cases, inl, inr, length-take, arith, true,
}
use psp_dev_link.Payload.Chars.{c_text, IsTerminated}
use psp_dev_link.Payload.Notification.{NotificationPayload, HasTexts}
use psp_dev_link.Ui.Cards.{UiConnectionState}
use psp_dev_link.Ui.Draw.{Draw, set_xy, text_color, print, say, width, dots_before, repeat_print}
use psp_dev_link.Ui.Draw.Laws.{
  c_str_lem, joined, join_texts_lem, cut_lem, length-dots_before, width-append, width-repeat_print,
}
use psp_dev_link.Ui.Ticker.{
  ticker_message, ticker_name, ticker_row, ticker_cells, no_ticker, draw_ticker,
}

-- A message of at most `n` characters.
record Message (n : ℕ) (result : Option (List ℕ)) : Type 0 where
  text : List ℕ
  returns : result ≡ some text
  fits : length text ≤ n

ticker_message-Message : (n : ℕ) (text : List ℕ) → n < 128 → Message n (ticker_message n text)
unfolding ticker_message
ticker_message-Message n text small = record {
  text =
      if ltb n (length text) && leb 3 (length (take n text))
      then dots_before (length (take n text)) (take n text)
      else take n text;
  returns = rw (cut_lem 128 n text small);
  fits =
      if_intro (λ (s : List ℕ). length s ≤ n) (ltb n (length text) && leb 3 (length (take n text)))
        _ _
        (omega (arith, length-dots_before (length (take n text)) (take n text), length-take n text))
        (omega (arith, length-take n text));
}

-- The cells of a row whose count of columns is what they print, at most 66.
record Row (result : Option (List Draw × ℕ)) : Type 0 where
  cells : List Draw
  cols : ℕ
  returns : result ≡ some (cells, cols)
  counted : width cells ≡ cols
  fits : cols ≤ 66

no_ticker-Row : Row (some no_ticker)
no_ticker-Row = record {
  cells = no_ticker.0;
  cols = 33;
  returns = refl;
  counted = refl;
  fits = omega arith;
}

ticker_row-Row : (n : NotificationPayload) → HasTexts n → Row (ticker_row n)
unfolding ticker_row ticker_name
ticker_row-Row n texts = record {
  cells =
      text_color 0xFF00FFFF
      ∷ say "[NOTIF] "
      ∷ text_color 0xFFFFFF00
      ∷ print app
      ∷ text_color 0xFFFFFFFF
      ∷ print msg.text
      ∷ [];
  cols = 8 + length app + length msg.text;
  returns = rw (
    c_str_lem n.app_name texts.name_ends,
    join_texts_lem 128 n.summary n.body texts.summary_ends texts.body_ends,
    msg.returns,
    room,
  );
  counted = omega arith;
  fits = omega (arith, name_fits, msg.fits);
}
  where
    app : List ℕ
    app = take 31 (c_text n.app_name ++ codes ": ")

    name_fits : length (take 31 (c_text n.app_name ++ codes ": ")) ≤ 31
    name_fits = omega (arith, length-take 31 (c_text n.app_name ++ codes ": "))

    room : ltb 0 (66 - (8 + length (take 31 (c_text n.app_name ++ codes ": ")))) ≡ true
    room = ground (arith, name_fits)

    msg : Message (66 - (8 + length (take 31 (c_text n.app_name ++ codes ": ")))) (
        ticker_message
          (66 - (8 + length (take 31 (c_text n.app_name ++ codes ": "))))
          (joined 128 n.summary n.body))
    msg = ticker_message-Message _ (joined 128 n.summary n.body) (omega arith)

first_char : (s : List ℕ) → IsTerminated s → (c : ℕ) × (load s 0 ≡ some c)
first_char [] ends = absurd ends
first_char (c ∷ s) ends = (c, refl)

ticker_cells-Row :
    (conn : UiConnectionState) (n : NotificationPayload)
    → HasTexts n
    → Row (ticker_cells conn (some n))
unfolding ticker_cells
ticker_cells-Row UiConnectionState.ui_disconnected n texts = no_ticker-Row
ticker_cells-Row UiConnectionState.ui_connected n texts = elim (Bool-cases (head.0 == 0)) [
  | inl empty ↦ record {
    cells = no_ticker.0;
    cols = 33;
    returns = rw (head.1, empty);
    counted = refl;
    fits = omega arith;
  }
  | inr named ↦ record {
    cells = row.cells;
    cols = row.cols;
    returns = rw (head.1, named) row.returns;
    counted = row.counted;
    fits = row.fits;
  }
]
  where
    head : (c : ℕ) × (load n.app_name 0 ≡ some c)
    head = first_char n.app_name texts.name_ends

    row : Row (ticker_row n)
    row = ticker_row-Row n texts

-- Commands that are returned and print exactly `n` characters.
pub record PrintsExactly (n : ℕ) (result : Option (List Draw)) : Type 0 where
  pub commands : List Draw
  pub returns : result ≡ some commands
  pub exact : width commands ≡ n

-- Whatever the state of the connection, the ticker of a notification whose texts end is drawn,
-- and it prints exactly 67 characters: its message is cut to what the name leaves of the row, and
-- the rest is filled with spaces.
pub draw_ticker_width :
    (conn : UiConnectionState) (n : NotificationPayload)
    → HasTexts n
    → PrintsExactly 67 (draw_ticker conn (some n))
unfolding draw_ticker
draw_ticker_width conn n texts = record {
  commands =
      (set_xy 1 22 ∷ row.cells)
      ++ ((text_color 0xFFFFFFFF ∷ []) ++ repeat_print (67 - row.cols) (codes " "));
  returns = rw row.returns;
  exact = omega (
    arith,
    width-append row.cells
        ((text_color 0xFFFFFFFF ∷ []) ++ repeat_print (67 - row.cols) (codes " ")),
    width-repeat_print (67 - row.cols) (codes " "),
    row.counted,
    row.fits,
  );
}
  where
    row : Row (ticker_cells conn (some n))
    row = ticker_cells-Row conn n texts
