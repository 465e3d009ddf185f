-- ===== src/Host/Config/Laws.antt =====
-- Saving and loading the settings of apps/desktop/src/config_service.cpp.
use psp_dev_link.Base.{
  ℕ, ◌≡◌, refl, ap, ◌∙◌, List, [], ◌∷◌, ◌++◌, some, ℤ, codes, Bool, true, false, arith,
}
use psp_dev_link.Host.Text.{is_empty, find_char, lines, print_int, stoi}
use psp_dev_link.Host.Text.Laws.{
  IsInt, IsPrinted, IsLine, stoi-print_int, print_int-IsPrinted, trim-printed, find_hash-printed,
  IsLine-printed, IsLine-append, lines-line, is_line-IsLine,
}
use psp_dev_link.Host.Config.{
  ConfigService, File, flag, saved_text, save, set_int, assign, uncomment, load_at, load_pair,
  load_line, load_lines, load,
}

-- The settings are values of their types.
pub record IsConfig (c : ConfigService) : Type 0 where
  pub telemetry_fits : IsInt c.telemetry_interval_ms
  pub git_fits : IsInt c.git_interval_ms
  pub notif_fits : IsInt c.notif_interval_ms

line_telemetry :
    (v : List ℕ) (c : ConfigService)
    → IsPrinted v
    → is_empty v ≡ false
    → load_line (codes "telemetry_interval_ms = " ++ v) c
      ≡ set_int (stoi v) (λ z. record c { telemetry_interval_ms = z }) c
unfolding load_line uncomment load_pair load_at assign find_char
line_telemetry v c h full = rw (find_hash-printed v h, trim-printed v h, full)

line_git :
    (v : List ℕ) (c : ConfigService)
    → IsPrinted v
    → is_empty v ≡ false
    → load_line (codes "git_interval_ms = " ++ v) c
      ≡ set_int (stoi v) (λ z. record c { git_interval_ms = z }) c
unfolding load_line uncomment load_pair load_at assign find_char
line_git v c h full = rw (find_hash-printed v h, trim-printed v h, full)

line_notif :
    (v : List ℕ) (c : ConfigService)
    → IsPrinted v
    → is_empty v ≡ false
    → load_line (codes "notif_interval_ms = " ++ v) c
      ≡ set_int (stoi v) (λ z. record c { notif_interval_ms = z }) c
unfolding load_line uncomment load_pair load_at assign find_char
line_notif v c h full = rw (find_hash-printed v h, trim-printed v h, full)

line_enable_git :
    (b : Bool) (c : ConfigService)
    → load_line (codes "enable_git = " ++ flag b) c ≡ record c { enable_git = b }
unfolding load_line uncomment load_pair load_at assign find_char
line_enable_git true c = refl
line_enable_git false c = refl

line_enable_notif :
    (b : Bool) (c : ConfigService)
    → load_line (codes "enable_notif = " ++ flag b) c ≡ record c { enable_notif = b }
unfolding load_line uncomment load_pair load_at assign find_char
line_enable_notif true c = refl
line_enable_notif false c = refl

flag-IsLine : (b : Bool) → IsLine (flag b)
flag-IsLine true = (refl, tt)
flag-IsLine false = (refl, tt)

not_empty : (s : List ℕ) {z : ℤ} → stoi s ≡ some z → is_empty s ≡ false
unfolding stoi
not_empty [] e = absurd (ground (arith, e))
not_empty (c ∷ s) e = refl

-- The six lines of the file.
abbrev header : List ℕ
header = codes "# PSP DevLink Desktop Companion Configuration"

abbrev settings : ConfigService → List (List ℕ)
settings c =
    header
    ∷ (codes "telemetry_interval_ms = " ++ print_int c.telemetry_interval_ms)
    ∷ (codes "git_interval_ms = " ++ print_int c.git_interval_ms)
    ∷ (codes "notif_interval_ms = " ++ print_int c.notif_interval_ms)
    ∷ (codes "enable_git = " ++ flag c.enable_git)
    ∷ (codes "enable_notif = " ++ flag c.enable_notif)
    ∷ []

-- Lines with a newline behind each.
abbrev joined_lines : List (List ℕ) → List ℕ
joined_lines [] = []
joined_lines (l ∷ ls) = l ++ (10 ∷ joined_lines ls)

abbrev AllLines : List (List ℕ) → Type 0
AllLines [] = Unit
AllLines (l ∷ ls) = IsLine l × AllLines ls

lines-joined_lines : (ls : List (List ℕ)) → AllLines ls → lines (joined_lines ls) ≡ ls
unfolding lines
lines-joined_lines [] h = refl
lines-joined_lines (l ∷ ls) h =
    lines-line l (joined_lines ls) h.0 ∙ ap (λ r. l ∷ r) (lines-joined_lines ls h.1)

setting-IsLine : (name v : List ℕ) → IsLine name → IsPrinted v → IsLine (name ++ v)
setting-IsLine name v hn hv = IsLine-append name v hn (IsLine-printed v hv)

saved_text-lines : (c : ConfigService) → lines (saved_text c) ≡ settings c
unfolding saved_text
saved_text-lines c = lines-joined_lines (settings c) (
  is_line-IsLine header refl,
  (
    setting-IsLine (codes "telemetry_interval_ms = ") _
        (is_line-IsLine (codes "telemetry_interval_ms = ") refl)
        (print_int-IsPrinted c.telemetry_interval_ms),
    (
      setting-IsLine (codes "git_interval_ms = ") _
          (is_line-IsLine (codes "git_interval_ms = ") refl)
          (print_int-IsPrinted c.git_interval_ms),
      (
        setting-IsLine (codes "notif_interval_ms = ") _
            (is_line-IsLine (codes "notif_interval_ms = ") refl)
            (print_int-IsPrinted c.notif_interval_ms),
        (
          IsLine-append (codes "enable_git = ") _ (is_line-IsLine (codes "enable_git = ") refl)
              (flag-IsLine c.enable_git),
          (
            IsLine-append (codes "enable_notif = ") _
                (is_line-IsLine (codes "enable_notif = ") refl) (flag-IsLine c.enable_notif),
            tt,
          ),
        ),
      ),
    ),
  ),
)

line_header : (c : ConfigService) → load_line header c ≡ c
unfolding load_line uncomment load_pair load_at find_char
line_header c = refl

load_lines-settings : (c c0 : ConfigService) → IsConfig c → load_lines (settings c) c0 ≡ c
unfolding load_lines
load_lines-settings c c0 ok = rw (
  line_header c0,
  line_telemetry (print_int c.telemetry_interval_ms) c0 (print_int-IsPrinted _) (not_empty _ told),
  told,
  line_git (print_int c.git_interval_ms) c1 (print_int-IsPrinted _) (not_empty _ counted),
  counted,
  line_notif (print_int c.notif_interval_ms) c2 (print_int-IsPrinted _) (not_empty _ noted),
  noted,
  line_enable_git c.enable_git c3,
  line_enable_notif c.enable_notif (record c3 { enable_git = c.enable_git }),
)
  where
    c1 : ConfigService
    c1 = record c0 { telemetry_interval_ms = c.telemetry_interval_ms }

    c2 : ConfigService
    c2 = record c1 { git_interval_ms = c.git_interval_ms }

    c3 : ConfigService
    c3 = record c2 { notif_interval_ms = c.notif_interval_ms }

    told : stoi (print_int c.telemetry_interval_ms) ≡ some c.telemetry_interval_ms
    told = stoi-print_int c.telemetry_interval_ms ok.telemetry_fits

    counted : stoi (print_int c.git_interval_ms) ≡ some c.git_interval_ms
    counted = stoi-print_int c.git_interval_ms ok.git_fits

    noted : stoi (print_int c.notif_interval_ms) ≡ some c.notif_interval_ms
    noted = stoi-print_int c.notif_interval_ms ok.notif_fits

-- What `save` writes to a file that can be written, `load` reads back: from whatever settings,
-- it gives those that were saved and leaves the file as it is.
pub load-save :
    (c c0 : ConfigService) (f : File)
    → IsConfig c
    → f.writable ≡ true
    → load c0 (save c f) ≡ (c, save c f)
unfolding load save
load-save c c0 f ok open_file = rw (open_file, saved_text-lines c, load_lines-settings c c0 ok)
