-- ===== src/Host/Text/Laws.antt =====
-- Lemmas on the texts of apps/desktop/src: decimal numbers, lines and trimming.
use psp_dev_link.Base.{
  ℕ, zero, suc, ◌+◌, ◌-◌, ◌*◌, ◌/◌, ◌%◌, ◌^◌, ◌≤◌, ◌<◌, ◌≡◌, refl, List, [], ◌∷◌, ◌++◌, none, some,
  ℤ, pos, negsuc, Bool, true, false, not, ltb, leb, ◌==◌, ◌&&◌, Bool-cases, inl, inr, arith, lt→ltb,
}
use psp_dev_link.Host.Text.{
  find_char, trim_front, trim_back, trim, lines, digits, print_int, read_digits, starts_digit,
  read_positive, read_negative, read_signed, stoi,
}

abbrev pub IsDigits : List ℕ → Type 0
IsDigits [] = Unit
IsDigits (c ∷ s) = ((48 ≤ c) × (c ≤ 57)) × IsDigits s

-- Digits and minus signs, and what lies between them in ASCII.
abbrev pub IsPrinted : List ℕ → Type 0
IsPrinted [] = Unit
IsPrinted (c ∷ s) = ((45 ≤ c) × (c ≤ 57)) × IsPrinted s

IsDigits-append : (s t : List ℕ) → IsDigits s → IsDigits t → IsDigits (s ++ t)
IsDigits-append [] t hs ht = ht
IsDigits-append (c ∷ s) t hs ht = (hs.0, IsDigits-append s t hs.1 ht)

IsDigits-IsPrinted : (s : List ℕ) → IsDigits s → IsPrinted s
IsDigits-IsPrinted [] h = tt
IsDigits-IsPrinted (c ∷ s) h = (omega (arith, h.0.0, h.0.1), IsDigits-IsPrinted s h.1)

digits-IsDigits : (fuel n : ℕ) → IsDigits (digits fuel n)
unfolding digits
digits-IsDigits zero n = tt
digits-IsDigits (suc fuel) n = elim (Bool-cases (ltb n 10)) [
  | inl last ↦ rw last (ground (arith, last), tt)
  | inr more ↦ rw more (
      IsDigits-append (digits fuel (n / 10)) ((48 + n % 10) ∷ []) (digits-IsDigits fuel (n / 10))
        (omega arith, tt))
]

read_digits-append :
    (acc : ℕ) (s t : List ℕ)
    → IsDigits s
    → read_digits acc (s ++ t) ≡ read_digits (read_digits acc s) t
unfolding read_digits
read_digits-append acc [] t h = refl
read_digits-append acc (c ∷ s) t h =
    ground (arith, h.0, read_digits-append (acc * 10 + (c - 48)) s t h.1)

read_digits-digits : (fuel n : ℕ) → n < fuel → read_digits 0 (digits fuel n) ≡ n
unfolding digits read_digits
read_digits-digits zero n h = absurd (omega arith)
read_digits-digits (suc fuel) n h = elim (Bool-cases (ltb n 10)) [
  | inl last ↦ rw last (ground (arith, last))
  | inr more ↦
      let before : read_digits 0 (digits fuel (n / 10)) ≡ n / 10 =
        read_digits-digits fuel (n / 10) (ground (arith, more)) in
      rw
        (
          more,
          read_digits-append 0 (digits fuel (n / 10)) ((48 + n % 10) ∷ [])
              (digits-IsDigits fuel (n / 10)),
          before,
        )
        (ground arith)
]

starts_digit-append : (s t : List ℕ) → starts_digit s ≡ true → starts_digit (s ++ t) ≡ true
starts_digit-append [] t h = cc
starts_digit-append (c ∷ s) t h = h

starts_digit-digits : (fuel n : ℕ) → n < fuel → starts_digit (digits fuel n) ≡ true
unfolding digits
starts_digit-digits zero n h = absurd (omega arith)
starts_digit-digits (suc fuel) n h = elim (Bool-cases (ltb n 10)) [
  | inl last ↦ rw last (ground (arith, last))
  | inr more ↦ rw more (
      starts_digit-append (digits fuel (n / 10)) ((48 + n % 10) ∷ [])
        (starts_digit-digits fuel (n / 10) (ground (arith, more))))
]

pub print_int-IsPrinted : (z : ℤ) → IsPrinted (print_int z)
unfolding print_int
print_int-IsPrinted (pos n) = IsDigits-IsPrinted _ (digits-IsDigits (suc n) n)
print_int-IsPrinted (negsuc n) =
    (omega arith, IsDigits-IsPrinted _ (digits-IsDigits (suc (suc n)) (suc n)))

-- The values of an `int`.
abbrev pub IsInt : ℤ → Type 0
IsInt (pos n) = n < 2 ^ 31
IsInt (negsuc n) = n < 2 ^ 31

trim_front-printed : (s : List ℕ) → IsPrinted s → trim_front s ≡ s
unfolding trim_front
trim_front-printed [] h = refl
trim_front-printed (c ∷ s) h = ground (arith, h.0)

trim_back-printed : (s : List ℕ) → IsPrinted s → trim_back s ≡ s
unfolding trim_back
trim_back-printed [] h = refl
trim_back-printed (c ∷ s) h = ground (arith, h.0, trim_back-printed s h.1)

pub trim-printed : (s : List ℕ) → IsPrinted s → trim s ≡ s
unfolding trim
trim-printed s h = rw (trim_front-printed s h, trim_back-printed s h)

-- A printed number does not contain a character that no number contains.
pub find_char-printed : (c : ℕ) (s : List ℕ) → IsPrinted s → 57 < c → find_char c s ≡ none
unfolding find_char
find_char-printed c [] h far = refl
find_char-printed c (x ∷ s) h far = ground (arith, h.0, find_char-printed c s h.1 far)

pub find_hash-printed : (s : List ℕ) → IsPrinted s → find_char b'#' s ≡ none
unfolding find_char
find_hash-printed [] h = refl
find_hash-printed (x ∷ s) h = ground (arith, h.0, find_hash-printed s h.1)

-- No newline in the text.
abbrev pub IsLine : List ℕ → Type 0
IsLine [] = Unit
IsLine (c ∷ s) = ((c == 10) ≡ false) × IsLine s

abbrev pub is_line : List ℕ → Bool
is_line [] = true
is_line (c ∷ s) = not (c == 10) && is_line s

-- For a literal, the test computes.
pub is_line-IsLine : (s : List ℕ) → is_line s ≡ true → IsLine s
is_line-IsLine [] h = tt
is_line-IsLine (c ∷ s) h = elim (Bool-cases (c == 10)) [
  | inl end ↦ absurd (ground (arith, end, h))
  | inr inside ↦ (inside, is_line-IsLine s (ground (arith, inside, h)))
]

pub IsLine-printed : (s : List ℕ) → IsPrinted s → IsLine s
IsLine-printed [] h = tt
IsLine-printed (c ∷ s) h = (ground (arith, h.0), IsLine-printed s h.1)

pub IsLine-append : (s t : List ℕ) → IsLine s → IsLine t → IsLine (s ++ t)
IsLine-append [] t hs ht = ht
IsLine-append (c ∷ s) t hs ht = (hs.0, IsLine-append s t hs.1 ht)

pub lines-line : (s rest : List ℕ) → IsLine s → lines (s ++ (10 ∷ rest)) ≡ s ∷ lines rest
unfolding lines
lines-line [] rest h = refl
lines-line (c ∷ s) rest h = rw (h.0, lines-line s rest h.1)

read_signed-digits :
    (s : List ℕ) → IsDigits s → starts_digit s ≡ true → read_signed s ≡ read_positive s
unfolding read_signed
read_signed-digits [] h e = absurd (ground (arith, e))
read_signed-digits (c ∷ s) h e = ground (arith, h.0)

-- `std::stoi` reads back what `<<` writes of an `int`.
pub stoi-print_int : (z : ℤ) → IsInt z → stoi (print_int z) ≡ some z
unfolding stoi print_int read_signed read_positive read_negative
stoi-print_int (pos n) fits = rw (
  trim_front-printed (digits (suc n) n) (IsDigits-IsPrinted _ (digits-IsDigits (suc n) n)),
  read_signed-digits (digits (suc n) n) (digits-IsDigits (suc n) n)
      (starts_digit-digits (suc n) n (omega arith)),
  read_digits-digits (suc n) n (omega arith),
  starts_digit-digits (suc n) n (omega arith),
  lt→ltb n (2 ^ 31) fits,
)
stoi-print_int (negsuc n) fits = rw (
  read_digits-digits (suc (suc n)) (suc n) (omega arith),
  starts_digit-digits (suc (suc n)) (suc n) (omega arith),
  fits_below,
)
  where
    fits_below : leb (suc n) (2 ^ 31) ≡ true
    fits_below = ground (arith, fits)
