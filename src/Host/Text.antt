-- ===== src/Host/Text.antt =====
-- The functions of std::string, of streams and of <cctype> that apps/desktop/src uses, on texts as
-- lists of character codes.
pub mod Laws
use psp_dev_link.Base.{
  ℕ, zero, suc, ◌+◌, ◌-◌, ◌*◌, ◌/◌, ◌%◌, ◌^◌, List, [], ◌∷◌, ◌++◌, Option, none, some, ℤ, pos,
  negsuc, ◌>>=◌, take, drop, Bool, true, false, ltb, leb, ◌==◌, ◌&&◌, ◌||◌, if◌then◌else◌,
}

-- `a == b` on texts.
unfoldable pub text_eq : List ℕ → List ℕ → Bool
text_eq [] [] = true
text_eq (a ∷ s) (b ∷ t) = a == b && text_eq s t
text_eq _ _ = false

-- `s.empty()`
abbrev pub is_empty {ℓ} : {A : Type ℓ} → List A → Bool
is_empty [] = true
is_empty (c ∷ s) = false

-- `s.rfind(t, 0) == 0`
unfoldable pub starts_with : List ℕ → List ℕ → Bool
starts_with [] s = true
starts_with (a ∷ t) [] = false
starts_with (a ∷ t) (b ∷ s) = a == b && starts_with t s

-- `s.find(t)`; `none` is npos.
unfoldable pub find : List ℕ → List ℕ → Option ℕ
unfolding starts_with
find t [] = if starts_with t [] then some 0 else none
find t (c ∷ s) =
    let rest = find t s >>= λ n. some (suc n) in if starts_with t (c ∷ s) then some 0 else rest

-- `s.find(c)` for a character.
unfoldable pub find_char : ℕ → List ℕ → Option ℕ
find_char c [] = none
find_char c (x ∷ s) =
    let rest = find_char c s >>= λ n. some (suc n) in if x == c then some 0 else rest

-- The last position, from that in the tail and from whether the head is one.
abbrev pub last_of : Option ℕ → Bool → Option ℕ
last_of none here = if here then some 0 else none
last_of (some n) here = some (suc n)

-- `s.rfind(c)` for a character.
unfoldable pub rfind_char : ℕ → List ℕ → Option ℕ
rfind_char c [] = none
rfind_char c (x ∷ s) = last_of (rfind_char c s) (x == c)

-- `std::isspace`
abbrev pub is_space : ℕ → Bool
is_space c = c == b' ' || (leb 9 c && leb c 13)

unfoldable pub trim_front : List ℕ → List ℕ
trim_front [] = []
trim_front (c ∷ s) = if is_space c then trim_front s else c ∷ s

unfoldable pub trim_back : List ℕ → List ℕ
trim_back [] = []
trim_back (c ∷ s) = let rest = trim_back s in if is_space c && is_empty rest then [] else c ∷ rest

-- Both ends, as the two loops of config_service.cpp and `trim_spaces` of git_service.cpp do.
unfoldable pub trim : List ℕ → List ℕ
unfolding trim_front trim_back
trim s = trim_back (trim_front s)

abbrev pub prepend : ℕ → List (List ℕ) → List (List ℕ)
prepend c [] = (c ∷ []) ∷ []
prepend c (l ∷ ls) = (c ∷ l) ∷ ls

-- The lines that `std::getline` gives, one after another.
unfoldable pub lines : List ℕ → List (List ℕ)
lines [] = []
lines (c ∷ s) = let rest = lines s in if c == b'\n' then [] ∷ rest else prepend c rest

abbrev pub is_digit : ℕ → Bool
is_digit c = leb b'0' c && leb c b'9'

-- The decimal digits of a number, with fuel for them.
unfoldable pub digits : ℕ → ℕ → List ℕ
digits zero n = []
digits (suc fuel) n =
    let front = digits fuel (n / 10) in
    if ltb n 10 then (b'0' + n) ∷ [] else front ++ ((b'0' + n % 10) ∷ [])

-- `out << n` for an `int`.
unfoldable pub print_int : ℤ → List ℕ
unfolding digits
print_int (pos n) = digits (suc n) n
print_int (negsuc n) = b'-' ∷ digits (suc (suc n)) (suc n)

-- The number that the leading digits stand for.
unfoldable pub read_digits : ℕ → List ℕ → ℕ
read_digits acc [] = acc
read_digits acc (c ∷ s) =
    let rest = read_digits (acc * 10 + (c - b'0')) s in if is_digit c then rest else acc

abbrev pub starts_digit : List ℕ → Bool
starts_digit [] = false
starts_digit (c ∷ s) = is_digit c

abbrev pub negate : ℕ → ℤ
negate zero = pos 0
negate (suc n) = negsuc n

unfoldable pub read_positive : List ℕ → Option ℤ
unfolding read_digits
read_positive s =
    let n = read_digits 0 s in if starts_digit s && ltb n (2 ^ 31) then some (pos n) else none

unfoldable pub read_negative : List ℕ → Option ℤ
unfolding read_digits
read_negative s =
    let n = read_digits 0 s in if starts_digit s && leb n (2 ^ 31) then some (negate n) else none

unfoldable pub read_signed : List ℕ → Option ℤ
unfolding read_positive read_negative
read_signed [] = none
read_signed (c ∷ s) =
    if c == b'-'
    then read_negative s
    else if c == b'+'
    then read_positive s
    else read_positive (c ∷ s)

-- `std::stoi`; `none` is the exception that it throws where there is no number or it does not fit
-- an `int`.
unfoldable pub stoi : List ℕ → Option ℤ
unfolding trim_front read_signed
stoi s = read_signed (trim_front s)
