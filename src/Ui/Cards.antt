-- ===== src/Ui/Cards.antt =====
-- The telemetry card and the git card of `ui_render` in apps/psp/src/ui.c.
use psp_dev_link.Base.{
  codes, ℕ, zero, suc, ◌+◌, ◌/◌, ◌%◌, List, [], ◌∷◌, ◌++◌, Option, some, ◌>>=◌, ltb, if◌then◌else◌,
}
use psp_dev_link.Payload.SystemStats.{SystemStatsPayload}
use psp_dev_link.Payload.GitStatus.{GitStatusPayload}
use psp_dev_link.Ui.Draw.{
  Draw, set_xy, text_color, print, print_percent, print_tenths, print_gigabytes, print_left,
  print_files, say, c_str, draw_progress_bar,
}

-- `UIConnectionState`
pub data UiConnectionState : Type 0 where
  ui_disconnected ui_connected : UiConnectionState

-- `for (int j = 1; j <= 9; j++)`: the same line in nine rows.
unfoldable pub card_sides : ℕ → ℕ → ℕ → List ℕ → List Draw
card_sides zero x j line = []
card_sides (suc left) x j line = set_xy x (6 + j) ∷ print line ∷ card_sides left x (suc j) line

unfoldable pub card_borders : List Draw
unfolding card_sides
card_borders =
    (text_color 0xFF888888 ∷ set_xy 1 6 ∷ say "+---- SYSTEM TELEMETRY ----+" ∷ [])
    ++ (card_sides 9 1 1 (codes "|                          |")
        ++ ((set_xy 1 16
              ∷ say "+--------------------------+"
              ∷ set_xy 34 6
              ∷ say "+--- GIT WORKSPACE STATUS --+"
              ∷ [])
            ++ (card_sides 9 34 1 (codes "|                           |")
                ++ (set_xy 34 16 ∷ say "+---------------------------+" ∷ []))))

-- The memory figures are converted to `double` and divided by 2^30 where they are printed.
unfoldable pub draw_stats : UiConnectionState → Option SystemStatsPayload → List Draw
unfolding draw_progress_bar
draw_stats UiConnectionState.ui_connected (some stats) =
    (set_xy 3 8 ∷ text_color 0xFFCCCCCC ∷ say "CPU: " ∷ [])
    ++ (draw_progress_bar 8 8 stats.cpu_usage 100 0xFF00FF00
        ++ ((set_xy 20 8
              ∷ text_color 0xFFFFFFFF
              ∷ print_percent stats.cpu_usage
              ∷ set_xy 3 10
              ∷ text_color 0xFFCCCCCC
              ∷ say "RAM: "
              ∷ [])
            ++ (draw_progress_bar 8 10 stats.ram_usage 100 0xFF00FF00
                ++ (set_xy 20 10
                    ∷ text_color 0xFFFFFFFF
                    ∷ print_percent stats.ram_usage
                    ∷ set_xy 3 12
                    ∷ text_color 0xFFCCCCCC
                    ∷ say "Temp: "
                    ∷ text_color 0xFFFFFFFF
                    ∷ print_tenths (stats.cpu_temp / 10) (stats.cpu_temp % 10)
                    ∷ set_xy 3 14
                    ∷ text_color 0xFFCCCCCC
                    ∷ say "Mem:  "
                    ∷ text_color 0xFFFFFFFF
                    ∷ print_gigabytes stats.ram_free stats.ram_total
                    ∷ []))))
draw_stats _ _ =
    text_color 0xFF555555
    ∷ set_xy 3 8
    ∷ say "CPU: [----------] --%"
    ∷ set_xy 3 10
    ∷ say "RAM: [----------] --%"
    ∷ set_xy 3 12
    ∷ say "Temp:  --.- C      "
    ∷ set_xy 3 14
    ∷ say "Mem:  --.-- GB    "
    ∷ []

unfoldable pub draw_git : UiConnectionState → Option GitStatusPayload → Option (List Draw)
unfolding c_str
draw_git UiConnectionState.ui_connected (some git) = c_str git.branch_name >>= λ branch. some (
    set_xy 36 8
    ∷ text_color 0xFFCCCCCC
    ∷ say "Branch: "
    ∷ text_color 0xFFFFFF00
    ∷ print_left 14 branch
    ∷ set_xy 36 10
    ∷ text_color 0xFFCCCCCC
    ∷ say "Modif:  "
    ∷ text_color (if ltb 0 git.modified_files then 0xFF0000FF else 0xFF00FF00)
    ∷ print_files git.modified_files
    ∷ set_xy 36 12
    ∷ text_color 0xFFCCCCCC
    ∷ say "Untrk:  "
    ∷ text_color (if ltb 0 git.untracked_files then 0xFF00FFFF else 0xFF00FF00)
    ∷ print_files git.untracked_files
    ∷ set_xy 36 14
    ∷ text_color 0xFFCCCCCC
    ∷ say "Tree:   "
    ∷ text_color 0xFF00FF00
    ∷ say "ACTIVE  "
    ∷ [])
draw_git _ _ = some (
    text_color 0xFF555555
    ∷ set_xy 36 8
    ∷ say "Branch: --            "
    ∷ set_xy 36 10
    ∷ say "Modif:  -- files      "
    ∷ set_xy 36 12
    ∷ say "Untrk:  -- files      "
    ∷ set_xy 36 14
    ∷ say "Tree:   INACTIVE      "
    ∷ [])

unfoldable pub draw_cards :
    UiConnectionState → Option SystemStatsPayload → Option GitStatusPayload → Option (List Draw)
unfolding card_borders draw_stats draw_git
draw_cards conn stats git =
    draw_git conn git >>= λ right. some (card_borders ++ (draw_stats conn stats ++ right))
