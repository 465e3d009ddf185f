-- ===== src/Ui/Draw.antt =====
-- What apps/psp/src/ui.c puts on the debug screen: its calls as a list of commands, and the C
-- string functions that it prepares texts with.
pub mod Laws
use Prim.Native.String.{String}
use psp_dev_link.Base.{
  codes, ℕ, zero, suc, ◌+◌, ◌-◌, ◌*◌, ◌/◌, ◌<◌, ◌≤◌, List, [], ◌∷◌, ◌++◌, Option, none, some, ◌>>=◌,
  length, take, set, replicate, Bool, true, false, ltb, leb, ◌==◌, ◌&&◌, if◌then◌else◌,
}
use psp_dev_link.Transport.{StatusMessage}

-- One call of the debug screen or the display. `print` is a text that is given or prepared
-- here; the other printing commands are `printf` conversions that the C library formats.
pub data Draw : Type 0 where
  set_offset : ℕ → Draw
  clear : Draw
  set_xy : ℕ → ℕ → Draw
  text_color : ℕ → Draw
  back_color : ℕ → Draw
  print : List ℕ → Draw
  print_status : StatusMessage → Draw
  print_number : ℕ → Draw
  print_percent : ℕ → Draw
  print_tenths : ℕ → ℕ → Draw
  print_gigabytes : ℕ → ℕ → Draw
  print_left : ℕ → List ℕ → Draw
  print_files : ℕ → Draw
  screen_init : Draw
  wait_vblank : Draw
  set_frame_buf : ℕ → Draw

abbrev pub say : String → Draw
say s = print (codes s)

-- A `%s` argument, a `strlen` or a source of `strcpy`: the C string in an array. `none` if it does
-- not end there.
unfoldable pub c_str : List ℕ → Option (List ℕ)
c_str [] = none
c_str (c ∷ s) = let rest = c_str s >>= λ t. some (c ∷ t) in if c == 0 then some [] else rest

-- `snprintf(buf, size, "%s - %s", a, b)`
unfoldable pub join_texts : ℕ → List ℕ → List ℕ → Option (List ℕ)
unfolding c_str
join_texts size a b = do
  left ← c_str a
  right ← c_str b
  some (take (size - 1) (left ++ (codes " - " ++ right)))

-- `char out[size]; strncpy(out, text, n); out[n] = '\0';`, as the C string in `out`.
unfoldable pub cut : ℕ → ℕ → List ℕ → Option (List ℕ)
cut size n text = if ltb n size then some (take n text) else none

-- The three stores of '.' in front of position `n`.
abbrev pub dots_before : ℕ → List ℕ → List ℕ
dots_before n s = set (set (set s (n - 1) b'.') (n - 2) b'.') (n - 3) b'.'

-- The number of characters that commands print.
abbrev pub width : List Draw → ℕ
width [] = 0
width (print s ∷ ds) = length s + width ds
width (_ ∷ ds) = width ds

-- `for (int i = 0; i < n; i++) pspDebugScreenPrintf(text);`
abbrev pub repeat_print : ℕ → List ℕ → List Draw
repeat_print n text = replicate n (print text)

-- How many of the ten cells of a bar are filled.
unfoldable pub filled_cells : ℕ → ℕ → ℕ
filled_cells val max_val =
    let filled = if ltb 0 max_val then val * 10 / max_val else 0 in
    if ltb 10 filled then 10 else filled

unfoldable pub draw_progress_bar : ℕ → ℕ → ℕ → ℕ → ℕ → List Draw
draw_progress_bar x y val max_val bar_color =
    let filled = filled_cells val max_val in
    (set_xy x y ∷ text_color 0xFFCCCCCC ∷ say "[" ∷ text_color bar_color ∷ [])
    ++ (repeat_print filled (codes "#")
        ++ ((text_color 0xFF444444 ∷ [])
            ++ (repeat_print (10 - filled) (codes "-") ++ (text_color 0xFFCCCCCC ∷ say "]" ∷ []))))
