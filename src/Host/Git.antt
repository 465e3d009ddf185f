-- ===== src/Host/Git.antt =====
-- apps/desktop/src/git_service.cpp: the state of the working tree, from the output of git.
pub mod Laws
use psp_dev_link.Base.{
  ℕ, suc, ◌+◌, ◌%◌, ◌^◌, List, [], ◌∷◌, Bool, true, false, not, codes, ◌==◌, ◌&&◌, if◌then◌else◌,
}
use psp_dev_link.Host.Text.{text_eq, is_empty, trim, lines}

pub record GitMetrics : Type 0 where
  pub branch_name : List ℕ
  pub modified_files : ℕ
  pub untracked_files : ℕ
  pub is_repository : Bool

-- What the three commands print, an empty text where a command cannot be run.
pub record GitOutput : Type 0 where
  pub inside_work_tree : List ℕ
  pub abbrev_ref : List ℕ
  pub porcelain : List ℕ

-- `line.size() >= 2`
abbrev pub is_entry : List ℕ → Bool
is_entry (a ∷ b ∷ s) = true
is_entry _ = false

-- `line[0] == '?' && line[1] == '?'`
abbrev pub is_untracked : List ℕ → Bool
is_untracked (a ∷ b ∷ s) = a == b'?' && b == b'?'
is_untracked _ = false

-- One line of the status. The counters are `uint32_t`.
unfoldable pub count_line : List ℕ → GitMetrics → GitMetrics
count_line l m =
    if is_entry l
    then (if is_untracked l
        then record m { untracked_files = (m.untracked_files + 1) % 2 ^ 32 }
        else record m { modified_files = (m.modified_files + 1) % 2 ^ 32 })
    else m

unfoldable pub count_lines : List (List ℕ) → GitMetrics → GitMetrics
unfolding count_line
count_lines [] m = m
count_lines (l ∷ ls) m = count_lines ls (count_line l m)

abbrev pub no_metrics : GitMetrics
no_metrics = record {
  branch_name = codes "None";
  modified_files = 0;
  untracked_files = 0;
  is_repository = false;
}

unfoldable pub get_metrics : GitOutput → GitMetrics
unfolding count_lines trim text_eq lines
get_metrics out =
    let branch = trim out.abbrev_ref in
    let found : GitMetrics = record no_metrics {
      is_repository = true;
      branch_name = if not (is_empty branch) then branch else codes "None";
    } in
    if not (text_eq (trim out.inside_work_tree) (codes "true"))
    then no_metrics
    else count_lines (lines out.porcelain) found
