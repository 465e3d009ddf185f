-- ===== src/Ui/Draw/Laws.antt =====
-- The string functions of apps/psp/src/ui.c on terminated texts, and the width of what is printed.
use psp_dev_link.Base.{
  codes, ℕ, zero, suc, ◌+◌, ◌-◌, ◌*◌, ◌/◌, ◌≤◌, ◌<◌, ◌≡◌, List, [], ◌∷◌, ◌++◌, some, length, take,
  set, ◌==◌, Bool-cases, inl, inr, length-set, lt→ltb, arith, ◌∙◌,
}
use psp_dev_link.Payload.Chars.{c_text, IsTerminated}
use psp_dev_link.Ui.Draw.{
  Draw, say, print, text_color, c_str, join_texts, cut, dots_before, width, repeat_print,
  filled_cells, draw_progress_bar,
}

pub c_str_lem : (s : List ℕ) → IsTerminated s → c_str s ≡ some (c_text s)
unfolding c_str
c_str_lem [] h = absurd h
c_str_lem (c ∷ s) h = elim (Bool-cases (c == 0)) [
  | inl stop ↦ rw stop
  | inr go ↦ rw (go, c_str_lem s (rw go at h))
]

-- The text that `join_texts` makes of two terminated texts.
abbrev pub joined : ℕ → List ℕ → List ℕ → List ℕ
joined size a b = take (size - 1) (c_text a ++ (codes " - " ++ c_text b))

pub join_texts_lem :
    (size : ℕ) (a b : List ℕ)
    → IsTerminated a
    → IsTerminated b
    → join_texts size a b ≡ some (joined size a b)
unfolding join_texts
join_texts_lem size a b ha hb = rw (c_str_lem a ha, c_str_lem b hb)

pub cut_lem : (size n : ℕ) (text : List ℕ) → n < size → cut size n text ≡ some (take n text)
unfolding cut
cut_lem size n text h = rw (lt→ltb n size h)

pub length-dots_before : (n : ℕ) (s : List ℕ) → length (dots_before n s) ≡ length s
length-dots_before n s =
    length-set (set (set s (n - 1) b'.') (n - 2) b'.') (n - 3) b'.'
    ∙ length-set (set s (n - 1) b'.') (n - 2) b'.'
    ∙ length-set s (n - 1) b'.'

pub width-append : (ds es : List Draw) → width (ds ++ es) ≡ width ds + width es
width-append [] es = omega arith
width-append (print s ∷ ds) es = omega (arith, width-append ds es)
width-append (_ ∷ ds) es = width-append ds es

pub width-repeat_print : (n : ℕ) (text : List ℕ) → width (repeat_print n text) ≡ n * length text
width-repeat_print zero text = omega arith
width-repeat_print (suc n) text = grind (arith, width-repeat_print n text)

tenfold : (val max_val : ℕ) → max_val ≤ val → 0 < max_val → 10 ≤ val * 10 / max_val
tenfold val max_val h p = grind arith

pub filled_cells_full :
    (val max_val : ℕ) → max_val ≤ val → 0 < max_val → filled_cells val max_val ≡ 10
unfolding filled_cells
filled_cells_full val max_val h p = ground (arith, tenfold val max_val h p)

filled_cells_bound : (val max_val : ℕ) → filled_cells val max_val ≤ 10
unfolding filled_cells
filled_cells_bound val max_val = ground arith

-- A progress bar is twelve characters wide whatever its value, and never has more than ten filled
-- cells.
pub draw_progress_bar-width :
    (x y val max_val color : ℕ)
    → (width (draw_progress_bar x y val max_val color) ≡ 12) × (filled_cells val max_val ≤ 10)
unfolding draw_progress_bar
draw_progress_bar-width x y val max_val color = (
  omega (
    arith,
    width-append (repeat_print n (codes "#")) (
        (text_color 0xFF444444 ∷ [])
        ++ (repeat_print (10 - n) (codes "-") ++ (text_color 0xFFCCCCCC ∷ say "]" ∷ []))),
    width-append (repeat_print (10 - n) (codes "-")) (text_color 0xFFCCCCCC ∷ say "]" ∷ []),
    width-repeat_print n (codes "#"),
    width-repeat_print (10 - n) (codes "-"),
    filled_cells_bound val max_val,
  ),
  filled_cells_bound val max_val,
)
  where
    n : ℕ
    n = filled_cells val max_val
