-- ===== src/Base/Memory.antt =====
-- C objects and pointers: a pointer that may be NULL is an `Option`, an array is a list of its
-- elements, and an access outside the array, which C leaves undefined, is `none`.
use Prim.Native.Nat.{ℕ, zero, suc}
use mathlib.Core.Bool.{Bool, true, false}
use mathlib.Core.List.{List, [], ◌∷◌}
use mathlib.Core.Option.{Option, none, some}
use psp_dev_link.Base.Tests.{ltb, if◌then◌else◌}
use psp_dev_link.Base.Lists.{length, get_elem?, set}

-- The access monad: `none` is undefined behaviour.
infixl 5 ◌>>=◌
abbrev pub ◌>>=◌ {ℓ κ} : {A : Type ℓ} {B : Type κ} → Option A → (A → Option B) → Option B
none >>= f = none
some a >>= f = f a

-- `p == NULL`
abbrev pub is_null {ℓ} : {A : Type ℓ} → Option A → Bool
is_null none = true
is_null (some a) = false

-- `buf[i]` as a value.
abbrev pub load {ℓ} : {A : Type ℓ} → List A → ℕ → Option A
load buf i = get_elem? buf i

-- `buf[i] = v;`
abbrev pub store {ℓ} : {A : Type ℓ} → List A → ℕ → A → Option (List A)
store buf i v = if ltb i (length buf) then some (set buf i v) else none

-- Stores to consecutive elements, the first one at `off`, in the order of the list.
unfoldable pub store_all : ℕ → List ℕ → List ℕ → Option (List ℕ)
store_all off [] buf = some buf
store_all off (v ∷ vs) buf = store buf off v >>= λ buf'. store_all (suc off) vs buf'

-- `memset(buf + off, v, n)`
unfoldable pub memset : ℕ → ℕ → ℕ → List ℕ → Option (List ℕ)
memset zero off v buf = some buf
memset (suc n) off v buf = store buf off v >>= λ buf'. memset n (suc off) v buf'
