-- ===== src/Host/Lists.antt =====
-- Lemmas on lists that the models of apps/desktop/src share.
use psp_dev_link.Base.{
  ℕ, zero, suc, ◌+◌, ◌≤◌, ◌≡◌, refl, ap, List, [], ◌∷◌, ◌++◌, drop, length, arith,
}

pub drop-append :
    {A : Type 0} → (n : ℕ) (xs ys : List A) → n ≤ length xs → drop n (xs ++ ys) ≡ drop n xs ++ ys
drop-append zero [] ys h = refl
drop-append zero (x ∷ xs) ys h = refl
drop-append (suc n) [] ys h = absurd (omega arith)
drop-append (suc n) (x ∷ xs) ys h = drop-append n xs ys (omega arith)

pub drop_zero : {A : Type 0} → (xs : List A) → xs ≡ drop 0 xs
drop_zero [] = refl
drop_zero (x ∷ xs) = refl

pub drop_nil : {A : Type 0} → (n : ℕ) → drop {A = A} n [] ≡ []
drop_nil zero = refl
drop_nil (suc n) = refl

pub drop-drop : {A : Type 0} → (m n : ℕ) (xs : List A) → drop m (drop n xs) ≡ drop (n + m) xs
drop-drop m n [] = rw (drop_nil n, drop_nil m, drop_nil (n + m))
drop-drop m zero (x ∷ xs) = let same : 0 + m ≡ m = omega arith in rw same
drop-drop m (suc n) (x ∷ xs) =
    let next : suc n + m ≡ suc (n + m) = omega arith in rw next (drop-drop m n xs)

pub append_assoc : {A : Type 0} → (xs ys zs : List A) → (xs ++ ys) ++ zs ≡ xs ++ (ys ++ zs)
append_assoc [] ys zs = refl
append_assoc (x ∷ xs) ys zs = ap (λ r. x ∷ r) (append_assoc xs ys zs)

pub append_nil : {A : Type 0} → (xs : List A) → xs ++ [] ≡ xs
append_nil [] = refl
append_nil (x ∷ xs) = ap (λ r. x ∷ r) (append_nil xs)

pub drop-short : {A : Type 0} → (n : ℕ) (xs : List A) → length xs ≤ n → drop n xs ≡ []
drop-short zero [] h = refl
drop-short (suc n) [] h = refl
drop-short zero (x ∷ xs) h = absurd (omega arith)
drop-short (suc n) (x ∷ xs) h = drop-short n xs (omega arith)
