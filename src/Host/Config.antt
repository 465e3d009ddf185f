-- ===== src/Host/Config.antt =====
-- apps/desktop/src/config_service.cpp: the settings and the file that keeps them.
pub mod Laws
use psp_dev_link.Base.{
  ℕ, zero, suc, ◌+◌, List, [], ◌∷◌, ◌++◌, Option, none, some, ℤ, pos, take, drop, codes, Bool, true,
  false, not, if◌then◌else◌,
}
use psp_dev_link.Host.Text.{text_eq, is_empty, find_char, trim, lines, print_int, stoi}

pub record ConfigService : Type 0 where
  pub telemetry_interval_ms : ℤ
  pub git_interval_ms : ℤ
  pub notif_interval_ms : ℤ
  pub enable_git : Bool
  pub enable_notif : Bool

-- The constructor.
abbrev pub default_config : ConfigService
default_config = record {
  telemetry_interval_ms = pos 1000;
  git_interval_ms = pos 3000;
  notif_interval_ms = pos 500;
  enable_git = true;
  enable_notif = true;
}

-- The file at `m_filepath`, if there is one, and whether it can be opened for writing.
pub record File : Type 0 where
  pub contents : Option (List ℕ)
  pub writable : Bool

abbrev pub flag : Bool → List ℕ
flag b = if b then codes "1" else codes "0"

-- What `save` writes, line by line.
unfoldable pub saved_text : ConfigService → List ℕ
unfolding print_int
saved_text c =
    codes "# PSP DevLink Desktop Companion Configuration"
    ++ (b'\n' ∷ (codes "telemetry_interval_ms = " ++ print_int c.telemetry_interval_ms)
        ++ (b'\n' ∷ (codes "git_interval_ms = " ++ print_int c.git_interval_ms)
            ++ (b'\n' ∷ (codes "notif_interval_ms = " ++ print_int c.notif_interval_ms)
                ++ (b'\n' ∷ (codes "enable_git = " ++ flag c.enable_git)
                    ++ (b'\n' ∷ (codes "enable_notif = " ++ flag c.enable_notif)
                        ++ (b'\n' ∷ []))))))

unfoldable pub save : ConfigService → File → File
unfolding saved_text
save c f = if f.writable then record f { contents = some (saved_text c) } else f

-- A value that does not parse leaves the setting as it was.
abbrev pub set_int : Option ℤ → (ℤ → ConfigService) → ConfigService → ConfigService
set_int none set c = c
set_int (some z) set c = set z

-- `z != 0`
abbrev pub is_set : ℤ → Bool
is_set (pos zero) = false
is_set _ = true

-- The assignment to one key.
unfoldable pub assign : List ℕ → List ℕ → ConfigService → ConfigService
unfolding stoi text_eq
assign key val c =
    if text_eq key (codes "telemetry_interval_ms")
    then set_int (stoi val) (λ z. record c { telemetry_interval_ms = z }) c
    else if text_eq key (codes "git_interval_ms")
    then set_int (stoi val) (λ z. record c { git_interval_ms = z }) c
    else if text_eq key (codes "notif_interval_ms")
    then set_int (stoi val) (λ z. record c { notif_interval_ms = z }) c
    else if text_eq key (codes "enable_git")
    then set_int (stoi val) (λ z. record c { enable_git = is_set z }) c
    else if text_eq key (codes "enable_notif")
    then set_int (stoi val) (λ z. record c { enable_notif = is_set z }) c
    else c

-- `line.substr(0, comment_pos)`, if there is a comment.
abbrev pub cut_at : Option ℕ → List ℕ → List ℕ
cut_at none line = line
cut_at (some n) line = take n line

-- The text in front of a comment.
unfoldable pub uncomment : List ℕ → List ℕ
unfolding find_char
uncomment line = cut_at (find_char b'#' line) line

-- What is done with a line whose `=` is at a position.
unfoldable pub load_at : Option ℕ → List ℕ → ConfigService → ConfigService
unfolding trim assign
load_at none line c = c
load_at (some n) line c =
    let val = trim (drop (suc n) line) in
    if is_empty val then c else assign (trim (take n line)) val c

-- The body of the loop for a line without its comment.
unfoldable pub load_pair : List ℕ → ConfigService → ConfigService
unfolding find_char load_at
load_pair line c = load_at (find_char b'=' line) line c

unfoldable pub load_line : List ℕ → ConfigService → ConfigService
unfolding uncomment load_pair
load_line line c = load_pair (uncomment line) c

-- `while (std::getline(file, line))`
unfoldable pub load_lines : List (List ℕ) → ConfigService → ConfigService
load_lines [] c = c
load_lines (l ∷ ls) c = load_lines ls (load_line l c)

-- A missing file is created with the settings that there are.
unfoldable pub load_text : Option (List ℕ) → ConfigService → File → ConfigService × File
unfolding load_lines lines save
load_text none c f = (c, save c f)
load_text (some text) c f = (load_lines (lines text) c, f)

unfoldable pub load : ConfigService → File → ConfigService × File
unfolding load_text
load c f = load_text f.contents c f
