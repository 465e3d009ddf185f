-- ===== src/Base/Overwrite.antt =====
-- What a run of stores to consecutive elements does to the array, and what a read then finds.
use Prim.Native.Nat.{ℕ, zero, suc, ◌+◌, ◌≤◌, ◌<◌}
use mathlib.Core.Path.{◌≡◌, refl, ap, sym, fun_ext, ◌∙◌}
use mathlib.Core.List.{List, [], ◌∷◌, ◌++◌}
use mathlib.Core.Option.{some}
use native.Mathlib.Omega.{arith}
use psp_dev_link.Base.Tests.{lt→ltb}
use psp_dev_link.Base.Lists.{length, get_elem?, set, drop, replicate}
use psp_dev_link.Base.Lists.{length-append, length-set, length-drop}
use psp_dev_link.Base.Memory.{◌>>=◌, store, store_all, memset}

-- `buf` with `vs` in place of its elements from `off` on.
abbrev pub overwrite : ℕ → List ℕ → List ℕ → List ℕ
overwrite zero vs buf = vs ++ drop (length vs) buf
overwrite (suc off) vs [] = []
overwrite (suc off) vs (x ∷ buf) = x ∷ overwrite off vs buf

overwrite-set :
    (off v : ℕ) (vs buf : List ℕ)
    → off < length buf
    → overwrite (suc off) vs (set buf off v) ≡ overwrite off (v ∷ vs) buf
overwrite-set off v vs [] h = absurd (omega arith)
overwrite-set zero v vs (x ∷ buf) h = refl
overwrite-set (suc off) v vs (x ∷ buf) h =
    ap (λ l. x ∷ l) (overwrite-set off v vs buf (omega arith))

overwrite-nil : (off : ℕ) (buf : List ℕ) → overwrite off [] buf ≡ buf
overwrite-nil zero buf = refl
overwrite-nil (suc off) [] = refl
overwrite-nil (suc off) (x ∷ buf) = ap (λ l. x ∷ l) (overwrite-nil off buf)

-- Consecutive stores inside the array overwrite that part of it and nothing else.
pub store_all-overwrite :
    (off : ℕ) (vs buf : List ℕ)
    → off + length vs ≤ length buf
    → store_all off vs buf ≡ some (overwrite off vs buf)
unfolding store_all
store_all-overwrite off [] buf h = ap some (sym (overwrite-nil off buf))
store_all-overwrite off (v ∷ vs) buf h = rw (lt→ltb off (length buf) (omega arith)) (
    store_all-overwrite (suc off) vs (set buf off v) (omega (arith, length-set buf off v))
    ∙ ap some (overwrite-set off v vs buf (omega arith)))

pub memset-store_all :
    (n off v : ℕ) (buf : List ℕ) → memset n off v buf ≡ store_all off (replicate n v) buf
unfolding memset store_all
memset-store_all zero off v buf = refl
memset-store_all (suc n) off v buf =
    ap (λ k. store buf off v >>= k) (fun_ext λ b. memset-store_all n (suc off) v b)

pub length-overwrite :
    (off : ℕ) (vs buf : List ℕ)
    → off + length vs ≤ length buf
    → length (overwrite off vs buf) ≡ length buf
length-overwrite zero vs buf h =
    omega (arith, length-append vs (drop (length vs) buf), length-drop (length vs) buf)
length-overwrite (suc off) vs [] h = refl
length-overwrite (suc off) vs (x ∷ buf) h = ap suc (length-overwrite off vs buf (omega arith))

-- Reading the element at `off` splits the array there; `next` is the position behind it.
pub drop-get_elem? :
    (off next : ℕ) (buf : List ℕ) {v : ℕ}
    → off + 1 ≡ next
    → get_elem? buf off ≡ some v
    → drop off buf ≡ v ∷ drop next buf
drop-get_elem? off next [] h e = absurd (cc)
drop-get_elem? zero zero (x ∷ buf) h e = absurd (omega arith)
drop-get_elem? zero (suc zero) (x ∷ buf) h e = ground arith
drop-get_elem? zero (suc (suc n)) (x ∷ buf) h e = absurd (omega arith)
drop-get_elem? (suc off) zero (x ∷ buf) h e = absurd (omega arith)
drop-get_elem? (suc off) (suc next) (x ∷ buf) h e = drop-get_elem? off next buf (omega arith) e
