-- ===== src/Payload/GitStatus.antt =====
-- The git status payload of shared/protocol/src/payload.c.
pub mod Laws
use psp_dev_link.Base.{
  ℕ, ◌<◌, ◌^◌, ◌≡◌, List, ◌++◌, Option, none, some, ℤ, pos, negsuc, ◌>>=◌, store_all, memset, ltb,
  length, if◌then◌else◌,
}
use psp_dev_link.Wire.{bytes32, read32}
use psp_dev_link.Payload.Chars.{copy_until_nul, read_chars, nul_padded}

abbrev pub git_status_size : ℕ
git_status_size = 40

-- `branch_name` is a `char[32]`.
pub record GitStatusPayload : Type 0 where
  pub modified_files : ℕ
  pub untracked_files : ℕ
  pub branch_name : List ℕ

unfoldable pub serialize_git_status :
    Option GitStatusPayload → Option (List ℕ) → ℕ → Option (ℤ × Option (List ℕ))
unfolding store_all memset copy_until_nul
serialize_git_status (some git) (some buffer) size =
    if ltb size git_status_size then some (negsuc 0, some buffer) else (do
      counts ← store_all 0 (bytes32 git.modified_files ++ bytes32 git.untracked_files) buffer
      clear ← memset 32 8 0 counts
      out ← copy_until_nul 31 0 8 git.branch_name clear
      some (pos 0, some out))
serialize_git_status _ buffer size = some (negsuc 0, buffer)

unfoldable pub deserialize_git_status :
    Option (List ℕ) → ℕ → Option GitStatusPayload → Option (ℤ × Option GitStatusPayload)
unfolding read32 read_chars
deserialize_git_status (some buffer) size (some git) =
    if ltb size git_status_size then some (negsuc 0, some git) else (do
      modified ← read32 0 buffer
      untracked ← read32 4 buffer
      name ← read_chars 32 8 buffer git.branch_name
      let out : GitStatusPayload = record {
        modified_files = modified;
        untracked_files = untracked;
        branch_name = name;
      }
      some (pos 0, some out))
deserialize_git_status _ size git = some (negsuc 0, git)

-- Each field fits its C type.
pub record IsGit (g : GitStatusPayload) : Type 0 where
  pub modified_fits : g.modified_files < 2 ^ 32
  pub untracked_fits : g.untracked_files < 2 ^ 32
  pub name_length : length g.branch_name ≡ 32

-- The payload with its branch name cut to 31 characters and everything behind the NUL cleared.
abbrev pub trim_git : GitStatusPayload → GitStatusPayload
trim_git g = record g { branch_name = nul_padded 31 g.branch_name }

-- The forty bytes on the wire.
abbrev pub git_bytes : GitStatusPayload → List ℕ
git_bytes g = bytes32 g.modified_files ++ (bytes32 g.untracked_files ++ nul_padded 31 g.branch_name)
