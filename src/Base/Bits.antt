-- ===== src/Base/Bits.antt =====
-- Fixed widths and bytes: casts, shifts, and `|` of fields that do not overlap.
use Prim.Native.Nat.{max, digits, bit_or-bitwise}
use Prim.Native.Nat.{ℕ, zero, suc, ◌+◌, ◌*◌, ◌/◌, ◌%◌, ◌^◌, ◌≤◌, ◌<◌, bit_or}
use mathlib.Core.Path.{◌≡◌, refl, ap}
use native.Mathlib.Nat.{pow-suc}
use native.Mathlib.Omega.{arith}

-- `(uint8_t)((v >> k) & 0xFF)`: both the mask and the cast keep the low eight bits.
abbrev pub byte_at : ℕ → ℕ → ℕ
byte_at v k = v / 2 ^ k % 2 ^ 8

-- `x << k` for an operand that the shift does not push out of its type.
infixl 75 ◌<<<◌
abbrev pub ◌<<<◌ : ℕ → ℕ → ℕ
x <<< k = x * 2 ^ k

-- `a | b`
infixl 40 ◌∣∣◌
abbrev pub ◌∣∣◌ : ℕ → ℕ → ℕ
a ∣∣ b = bit_or a b

abbrev or_digits : ℕ → ℕ → ℕ → ℕ
or_digits n a b = digits (λ y. y) max n a b

-- The digit recursion needs no more rounds than its first operand.
or_digits_rounds : (n m a b : ℕ) → a ≤ n → a ≤ m → or_digits n a b ≡ or_digits m a b
or_digits_rounds n m zero b p q = rw (low n, low m)
  where
    low : (k : ℕ) → or_digits k 0 b ≡ b
    low zero = refl
    low (suc k) = refl
or_digits_rounds zero m (suc a) b p q = absurd (omega arith)
or_digits_rounds (suc n) zero (suc a) b p q = absurd (omega arith)
or_digits_rounds (suc n) (suc m) (suc a) b p q =
    omega (arith, or_digits_rounds n m (suc a / 2) (b / 2) (omega arith) (omega arith))

zero-or : (b : ℕ) → bit_or 0 b ≡ b
zero-or b = bit_or-bitwise 0 b

or_lowest : (a b : ℕ) → bit_or a b ≡ bit_or (a / 2) (b / 2) * 2 + max (a % 2) (b % 2)
or_lowest zero b = omega (arith, zero-or b, zero-or (b / 2))
or_lowest (suc a) b = omega (
  arith,
  bit_or-bitwise (suc a) b,
  bit_or-bitwise (suc a / 2) (b / 2),
  or_digits_rounds a (suc a / 2) (suc a / 2) (b / 2) (omega arith) (omega arith),
)

-- `a | (b << k)` is a sum when `a` fits below the shift.
pub or_shifted : (k a b : ℕ) → a < 2 ^ k → a ∣∣ b <<< k ≡ a + b * 2 ^ k
or_shifted zero zero b h = omega (arith, zero-or (b * 1))
or_shifted zero (suc a) b h = absurd (omega arith)
or_shifted (suc k) a b h = omega (
  arith,
  or_lowest a (b * 2 ^ suc k),
  pow-suc 2 k,
  ap (λ (t : ℕ). b * t) (pow-suc 2 k),
  or_shifted k (a / 2) b (omega (arith, pow-suc 2 k)),
  ap (λ (t : ℕ). bit_or (a / 2) t) (halve k b),
)
  where
    halve : (k b : ℕ) → b * 2 ^ suc k / 2 ≡ b * 2 ^ k
    halve k b = omega (arith, ap (λ (t : ℕ). b * t) (pow-suc 2 k))
