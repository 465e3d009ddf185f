-- ===== src/Host/Git/Laws.antt =====
-- What `get_metrics` of apps/desktop/src/git_service.cpp counts.
use psp_dev_link.Base.{
  ℕ, ◌+◌, ◌^◌, ◌<◌, ◌≤◌, ◌≡◌, List, [], ◌∷◌, Bool, true, not, length, codes, ◌&&◌, if◌then◌else◌,
  if_intro, arith, ◌∙◌,
}
use psp_dev_link.Host.Text.{text_eq, trim, lines, is_empty}
use psp_dev_link.Host.Git.{
  GitMetrics, GitOutput, is_entry, is_untracked, count_line, count_lines, get_metrics, no_metrics,
}

-- How many lines of a list pass a test.
abbrev pub count : (List ℕ → Bool) → List (List ℕ) → ℕ
count test [] = 0
count test (l ∷ ls) = (if test l then 1 else 0) + count test ls

abbrev pub is_modified : List ℕ → Bool
is_modified l = is_entry l && not (is_untracked l)

pub record Counted (ls : List (List ℕ)) (m result : GitMetrics) : Type 0 where
  pub modified : result.modified_files ≡ m.modified_files + count is_modified ls
  pub untracked : result.untracked_files ≡ m.untracked_files + count is_untracked ls
  pub all_entries : count is_modified ls + count is_untracked ls ≡ count is_entry ls
  pub same_branch : result.branch_name ≡ m.branch_name
  pub same_repository : result.is_repository ≡ m.is_repository

one_line :
    (l : List ℕ) (m : GitMetrics)
    → m.modified_files + 1 < 2 ^ 32
    → m.untracked_files + 1 < 2 ^ 32
    → Counted (l ∷ []) m (count_line l m)
unfolding count_line
one_line [] m small fits = ground arith
one_line (a ∷ []) m small fits = ground arith
one_line (a ∷ b ∷ s) m small fits = ground arith

count_one : (test : List ℕ → Bool) (l : List ℕ) → count test (l ∷ []) ≤ 1
count_one test l = ground arith

count_lines-Counted :
    (ls : List (List ℕ)) (m : GitMetrics)
    → m.modified_files + length ls < 2 ^ 32
    → m.untracked_files + length ls < 2 ^ 32
    → Counted ls m (count_lines ls m)
unfolding count_lines
count_lines-Counted [] m small fits = ground arith
count_lines-Counted (l ∷ ls) m small fits =
    let next : GitMetrics = count_line l m in
    let first : Counted (l ∷ []) m next = one_line l m (omega arith) (omega arith) in
    let few = count_one is_modified l in
    let new = count_one is_untracked l in
    let one_more : next.modified_files ≡ m.modified_files + count is_modified (l ∷ []) =
      first.modified in
    let one_new : next.untracked_files ≡ m.untracked_files + count is_untracked (l ∷ []) =
      first.untracked in
    let entries : count is_modified (l ∷ []) + count is_untracked (l ∷ [])
        ≡ count is_entry (l ∷ []) =
      first.all_entries in
    let rest : Counted ls next (count_lines ls next) =
      count_lines-Counted ls next (omega arith) (omega arith) in
    let more : (count_lines ls next).modified_files ≡ next.modified_files + count is_modified ls =
      rest.modified in
    let others : (count_lines ls next).untracked_files
        ≡ next.untracked_files + count is_untracked ls =
      rest.untracked in
    let tail : count is_modified ls + count is_untracked ls ≡ count is_entry ls =
      rest.all_entries in
    record {
      modified = omega arith;
      untracked = omega arith;
      all_entries = omega arith;
      same_branch = rest.same_branch ∙ first.same_branch;
      same_repository = rest.same_repository ∙ first.same_repository;
    }

abbrev Fits : GitMetrics → Type 0
Fits m = (m.modified_files < 2 ^ 32) × (m.untracked_files < 2 ^ 32)

count_line-Fits : (l : List ℕ) (m : GitMetrics) → Fits m → Fits (count_line l m)
unfolding count_line
count_line-Fits l m ok =
    if_intro Fits (is_entry l) _ m
      (if_intro Fits (is_untracked l) _ _ (omega (arith, ok.0), omega arith)
        (omega arith, omega (arith, ok.1)))
      ok

count_lines-Fits : (ls : List (List ℕ)) (m : GitMetrics) → Fits m → Fits (count_lines ls m)
unfolding count_lines
count_lines-Fits [] m ok = ok
count_lines-Fits (l ∷ ls) m ok = count_lines-Fits ls (count_line l m) (count_line-Fits l m ok)

pub get_metrics-fits :
    (out : GitOutput)
    → ((get_metrics out).modified_files < 2 ^ 32) × ((get_metrics out).untracked_files < 2 ^ 32)
unfolding get_metrics
get_metrics-fits out =
    if_intro Fits (not (text_eq (trim out.inside_work_tree) (codes "true"))) _ _
      (omega arith, omega arith)
      (count_lines-Fits (lines out.porcelain) _ (omega arith, omega arith))

-- For a working tree whose status has fewer than 2 ^ 32 lines, the modified and the untracked
-- files that are counted are the lines with two or more characters that do not begin with two
-- question marks, and those that do; together they are all lines with two or more characters.
pub get_metrics-Counted :
    (out : GitOutput)
    → text_eq (trim out.inside_work_tree) (codes "true") ≡ true
    → length (lines out.porcelain) < 2 ^ 32
    → ((get_metrics out).modified_files ≡ count is_modified (lines out.porcelain))
      × ((get_metrics out).untracked_files ≡ count is_untracked (lines out.porcelain))
      × ((get_metrics out).modified_files + (get_metrics out).untracked_files
          ≡ count is_entry (lines out.porcelain))
      × ((get_metrics out).is_repository ≡ true)
unfolding get_metrics
get_metrics-Counted out inside few = rw inside (
  omega (arith, c.modified),
  omega (arith, c.untracked),
  omega (arith, c.modified, c.untracked, c.all_entries),
  c.same_repository,
)
  where
    branch : List ℕ
    branch = trim out.abbrev_ref

    found_repository : GitMetrics
    found_repository = record no_metrics {
      is_repository = true;
      branch_name = if not (is_empty branch) then branch else codes "None";
    }

    c :
        Counted
          (lines out.porcelain)
          found_repository
          (count_lines (lines out.porcelain) found_repository)
    c = count_lines-Counted (lines out.porcelain) found_repository (omega arith) (omega arith)
