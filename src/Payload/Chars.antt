-- ===== src/Payload/Chars.antt =====
-- The loops of shared/protocol/src/payload.c that copy character arrays, with their `memset`s. A
-- `char` is the byte that it holds: the casts between `char` and `uint8_t` keep it.
pub mod Laws
use psp_dev_link.Base.{
  ℕ, zero, suc, ◌+◌, ◌-◌, List, [], ◌∷◌, ◌++◌, Option, none, some, ◌>>=◌, load, store, memset,
  length, replicate, Bool, true, false, ◌==◌, if◌then◌else◌,
}

-- `for (; i < i + left && src[i] != '\0'; i++) buf[off + i] = src[i];`
unfoldable pub copy_until_nul : ℕ → ℕ → ℕ → List ℕ → List ℕ → Option (List ℕ)
copy_until_nul zero i off src buf = some buf
copy_until_nul (suc left) i off src buf = load src i >>= λ c.
    let rest = store buf (off + i) c >>= λ buf'. copy_until_nul left (suc i) off src buf' in
    if c == 0 then some buf else rest

-- `for (; i < i + left; i++) dst[i] = buf[off + i];`
unfoldable pub copy_chars : ℕ → ℕ → ℕ → List ℕ → List ℕ → Option (List ℕ)
copy_chars zero i off buf dst = some dst
copy_chars (suc left) i off buf dst =
    load buf (off + i) >>= λ c. store dst i c >>= λ dst'. copy_chars left (suc i) off buf dst'

-- A character array of `size` elements is filled from the buffer: cleared, `size - 1` characters
-- copied, the last one set to NUL.
unfoldable pub read_chars : ℕ → ℕ → List ℕ → List ℕ → Option (List ℕ)
unfolding copy_chars memset
read_chars size off buf dst = do
  clear ← memset size 0 0 dst
  chars ← copy_chars (size - 1) 0 off buf clear
  store chars (size - 1) 0

-- The C string in an array, cut at `n` characters.
abbrev pub c_string : ℕ → List ℕ → List ℕ
c_string zero s = []
c_string (suc n) [] = []
c_string (suc n) (c ∷ s) = if c == 0 then [] else c ∷ c_string n s

-- That string in an array of `n + 1` elements, with NULs behind it.
abbrev pub nul_padded : ℕ → List ℕ → List ℕ
nul_padded n s = c_string n s ++ replicate (suc n - length (c_string n s)) 0

-- The whole C string in an array.
abbrev pub c_text : List ℕ → List ℕ
c_text [] = []
c_text (c ∷ s) = if c == 0 then [] else c ∷ c_text s

-- The array holds a NUL, so that a C string ends inside it.
abbrev pub IsTerminated : List ℕ → Type 0
IsTerminated [] = ⊥
IsTerminated (c ∷ s) = if c == 0 then Unit {0} else IsTerminated s

-- `strcmp(s, t) == 0`; `none` if a string does not end inside its array before the two differ.
unfoldable pub strcmp_eq : List ℕ → List ℕ → Option Bool
strcmp_eq [] t = none
strcmp_eq (a ∷ s) [] = none
strcmp_eq (a ∷ s) (b ∷ t) =
    let rest = strcmp_eq s t in if a == b then (if a == 0 then some true else rest) else some false
