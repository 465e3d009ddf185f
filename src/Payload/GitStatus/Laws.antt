-- ===== src/Payload/GitStatus/Laws.antt =====
-- Writing and reading the git status payload (shared/protocol/src/payload.c).
use psp_dev_link.Base.{
  ℕ, ◌≤◌, ◌≡◌, refl, true, List, [], ◌∷◌, ◌++◌, Option, none, some, ℤ, pos, negsuc, ◌>>=◌, length,
  take, drop, ltb, ◌||◌, is_null, ltb-eq-false, store_all-overwrite, length-append, length-take,
  length-drop, arith, ap, ◌∙◌,
}
use psp_dev_link.Wire.{bytes32, IsBytes, read32}
use psp_dev_link.Wire.Laws.{Field, or32-byte_at, read32-Field}
use psp_dev_link.Payload.Chars.{c_string, nul_padded, IsTerminated}
use psp_dev_link.Payload.Chars.Laws.{
  read_chars_lem, take-nul_padded, length-nul_padded, c_string-nul_padded, copy_until_nul-cleared,
  memset-field, IsTerminated-append_nul,
}
use psp_dev_link.Payload.GitStatus.{
  git_status_size, GitStatusPayload, serialize_git_status, deserialize_git_status, IsGit, trim_git,
  git_bytes,
}

pub serialize_git_status_lem :
    (g : GitStatusPayload) (buf : List ℕ) (size : ℕ)
    → IsGit g
    → git_status_size ≤ size
    → size ≤ length buf
    → serialize_git_status (some g) (some buf) size
      ≡ some (pos 0, some (git_bytes g ++ drop 32 (drop 8 buf)))
unfolding serialize_git_status
serialize_git_status_lem g buf size ok enough there = rw (
  ltb-eq-false size git_status_size enough,
  store_all-overwrite 0 counts buf (omega arith),
  memset-field 32 8 0 counts (drop 8 buf) (omega (arith, length-drop 8 buf)) refl,
  copy_until_nul-cleared 31 32 8 g.branch_name counts (drop 32 (drop 8 buf))
      (omega (arith, ok.name_length)) (omega arith) refl,
)
  where
    counts : List ℕ
    counts = bytes32 g.modified_files ++ bytes32 g.untracked_files

pub deserialize-git_bytes :
    (g old : GitStatusPayload) (rest : List ℕ) (size : ℕ)
    → IsGit g
    → length old.branch_name ≡ 32
    → git_status_size ≤ size
    → deserialize_git_status (some (git_bytes g ++ rest)) size (some old)
      ≡ some (pos 0, some (trim_git g))
unfolding deserialize_git_status
deserialize-git_bytes g old rest size ok fits enough = rw (
  ltb-eq-false size git_status_size enough,
  or32-byte_at g.modified_files ok.modified_fits,
  or32-byte_at g.untracked_files ok.untracked_fits,
  read_chars_lem 31 8 (git_bytes g ++ rest) old.branch_name fits (
      omega (
        arith,
        length-append (nul_padded 31 g.branch_name) rest,
        length-nul_padded 31 g.branch_name,
      )),
  take-nul_padded 31 g.branch_name rest,
)

-- A git status that fits its type comes back with its counts unchanged and its branch name as the
-- same C string, cut at 31 characters and padded with NULs: with at least forty bytes on both
-- sides, deserialising what was serialised returns 0, whatever the buffer and the out-parameter,
-- with its array of 32 characters, held before.
pub git_round_trip :
    (g old : GitStatusPayload) (buf : List ℕ) (size : ℕ)
    → IsGit g
    → length old.branch_name ≡ 32
    → git_status_size ≤ size
    → size ≤ length buf
    → ((serialize_git_status (some g) (some buf) size >>= λ r.
          deserialize_git_status r.1 size (some old))
        ≡ some (pos 0, some (trim_git g)))
      × (c_string 31 (trim_git g).branch_name ≡ c_string 31 g.branch_name)
git_round_trip g old buf size ok fits enough there = (
  rw (serialize_git_status_lem g buf size ok enough there)
      (deserialize-git_bytes g old (drop 32 (drop 8 buf)) size ok fits enough),
  c_string-nul_padded 31 g.branch_name,
)

-- What a call on forty or more bytes gives back, for any bytes.
pub record DecodesGit (buf : List ℕ) (result : Option (ℤ × Option GitStatusPayload)) : Type 0 where
  pub git : GitStatusPayload
  pub returns : result ≡ some (pos 0, some git)
  pub in_range : IsGit git
  pub counts : buf ≡ bytes32 git.modified_files ++ (bytes32 git.untracked_files ++ drop 8 buf)
  pub name_ends : IsTerminated git.branch_name
  pub terminated : git.branch_name ≡ take 31 (drop 8 buf) ++ (0 ∷ [])

module _ (buf : List ℕ) (old : GitStatusPayload) (size : ℕ) (bytes : IsBytes buf)
    (fits : length old.branch_name ≡ 32) (enough : git_status_size ≤ size)
    (there : 40 ≤ length buf) where
  modified-Field : Field 32 bytes32 4 0 buf (read32 0 buf)
  modified-Field = read32-Field buf bytes 0 (omega arith)

  untracked-Field : Field 32 bytes32 4 4 buf (read32 4 buf)
  untracked-Field = read32-Field buf bytes 4 (omega arith)

  -- On a buffer of at least forty arbitrary bytes the call never leaves it: with `size` at least
  -- forty it returns 0 and the counts that stand in the buffer, and the branch name is 31
  -- characters of the buffer with a NUL behind them, so it is terminated even if the sender's was
  -- not.
  pub deserialize_git_status-Decodes :
      DecodesGit buf (deserialize_git_status (some buf) size (some old))
  unfolding deserialize_git_status
  deserialize_git_status-Decodes = record {
    git = record {
      modified_files = modified-Field.value;
      untracked_files = untracked-Field.value;
      branch_name = take 31 (drop 8 buf) ++ (0 ∷ []);
    };
    returns = rw (
      ltb-eq-false size git_status_size enough,
      modified-Field.returns,
      untracked-Field.returns,
      read_chars_lem 31 8 buf old.branch_name fits (omega arith),
    );
    in_range = record {
      modified_fits = modified-Field.fits;
      untracked_fits = untracked-Field.fits;
      name_length = omega (
        arith,
        length-append (take 31 (drop 8 buf)) (0 ∷ []),
        length-take 31 (drop 8 buf),
        length-drop 8 buf,
      );
    };
    counts =
        modified-Field.there ∙ ap (λ l. bytes32 modified-Field.value ++ l) untracked-Field.there;
    name_ends = IsTerminated-append_nul (take 31 (drop 8 buf));
    terminated = refl;
  }

-- A NULL record, a NULL buffer or fewer than forty bytes: both functions return -1, read and write
-- nothing, and leave the object behind the out-pointer as it was.
pub git_calls_refuse :
    (g : Option GitStatusPayload) (buf : Option (List ℕ)) (size : ℕ)
    → (is_null g || is_null buf || ltb size git_status_size) ≡ true
    → (serialize_git_status g buf size ≡ some (negsuc 0, buf))
      × (deserialize_git_status buf size g ≡ some (negsuc 0, g))
unfolding serialize_git_status deserialize_git_status
git_calls_refuse none none size e = (refl, refl)
git_calls_refuse none (some buf) size e = (refl, refl)
git_calls_refuse (some g) none size e = (refl, refl)
git_calls_refuse (some g) (some buf) size e = (rw e, rw e)
