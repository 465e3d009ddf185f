-- ===== src/Wire/Laws.antt =====
-- Lemmas on the little-endian fields of shared/protocol/src/packet.c and payload.c.
use psp_dev_link.Base.{
  ℕ, zero, suc, ◌+◌, ◌*◌, ◌^◌, ◌≤◌, ◌<◌, ◌≡◌, refl, List, [], ◌∷◌, ◌++◌, Option, some, load, length,
  get_elem?, drop, get_elem?-total, drop-get_elem?, overwrite, arith, ap, sym, ◌∙◌,
}
use mathlib.Core.Path.{ap₂}
use psp_dev_link.Base.Bits.{byte_at, ◌<<<◌, ◌∣∣◌, or_shifted}
use psp_dev_link.Wire.{bytes16, bytes32, bytes64, read16, read32, read64, IsBytes}

pub IsBytes-get_elem? :
    (buf : List ℕ) (i : ℕ) {b : ℕ} → IsBytes buf → get_elem? buf i ≡ some b → b < 256
IsBytes-get_elem? [] i h e = absurd (cc)
IsBytes-get_elem? (x ∷ buf) zero h e = ground arith
IsBytes-get_elem? (x ∷ buf) (suc i) h e = IsBytes-get_elem? buf i h.1 e

-- The value of an OR of shifted bytes.
pub or16 : (a b : ℕ) → a < 256 → a ∣∣ b <<< 8 ≡ a + b * 256
or16 a b h = or_shifted 8 a b h

pub or32 :
    (a b c d : ℕ)
    → a < 256
    → b < 256
    → c < 256
    → a ∣∣ b <<< 8 ∣∣ c <<< 16 ∣∣ d <<< 24 ≡ a + b * 2 ^ 8 + c * 2 ^ 16 + d * 2 ^ 24
or32 a b c d ha hb hc = rw (
  or_shifted 8 a b ha,
  or_shifted 16 (a + b * 2 ^ 8) c (omega arith),
  or_shifted 24 (a + b * 2 ^ 8 + c * 2 ^ 16) d (omega arith),
)

-- The upper half of a 64-bit field on top of its lower half.
or64_high :
    (lo e f g h : ℕ)
    → lo < 2 ^ 32
    → e < 256
    → f < 256
    → g < 256
    → lo ∣∣ e <<< 32 ∣∣ f <<< 40 ∣∣ g <<< 48 ∣∣ h <<< 56
      ≡ lo + e * 2 ^ 32 + f * 2 ^ 40 + g * 2 ^ 48 + h * 2 ^ 56
or64_high lo e f g h hl he hf hg = rw (
  or_shifted 32 lo e hl,
  or_shifted 40 (lo + e * 2 ^ 32) f (omega arith),
  or_shifted 48 (lo + e * 2 ^ 32 + f * 2 ^ 40) g (omega arith),
  or_shifted 56 (lo + e * 2 ^ 32 + f * 2 ^ 40 + g * 2 ^ 48) h (omega arith),
)

pub or16-byte_at : (v : ℕ) → v < 2 ^ 16 → byte_at v 0 ∣∣ byte_at v 8 <<< 8 ≡ v
or16-byte_at v h = rw (or16 (byte_at v 0) (byte_at v 8) (omega arith)) (omega arith)

pub or32-byte_at :
    (v : ℕ)
    → v < 2 ^ 32
    → byte_at v 0 ∣∣ byte_at v 8 <<< 8 ∣∣ byte_at v 16 <<< 16 ∣∣ byte_at v 24 <<< 24 ≡ v
or32-byte_at v h =
    or32 (byte_at v 0) (byte_at v 8) (byte_at v 16) (byte_at v 24) (omega arith) (omega arith)
      (omega arith)
    ∙ omega arith

pub or64-byte_at :
    (v : ℕ)
    → v < 2 ^ 64
    → byte_at v 0
        ∣∣ byte_at v 8 <<< 8
        ∣∣ byte_at v 16 <<< 16
        ∣∣ byte_at v 24 <<< 24
        ∣∣ byte_at v 32 <<< 32
        ∣∣ byte_at v 40 <<< 40
        ∣∣ byte_at v 48 <<< 48
        ∣∣ byte_at v 56 <<< 56
      ≡ v
or64-byte_at v h =
    rw
      (or32 (byte_at v 0) (byte_at v 8) (byte_at v 16) (byte_at v 24) (omega arith) (omega arith)
        (omega arith))
      (or64_high (byte_at v 0 + byte_at v 8 * 2 ^ 8 + byte_at v 16 * 2 ^ 16 + byte_at v 24 * 2 ^ 24)
          (byte_at v 32) (byte_at v 40) (byte_at v 48) (byte_at v 56) (omega arith) (omega arith)
          (omega arith) (omega arith)
        ∙ omega arith)

-- The bytes of an OR of shifted bytes are those bytes.
pub bytes16-or16 : (a b : ℕ) → a < 256 → b < 256 → bytes16 (a ∣∣ b <<< 8) ≡ a ∷ b ∷ []
bytes16-or16 a b ha hb = rw (or16 a b ha) (ap₂ (λ x y. x ∷ y ∷ []) (omega arith) (omega arith))

pub bytes32-or32 :
    (a b c d : ℕ)
    → a < 256
    → b < 256
    → c < 256
    → d < 256
    → bytes32 (a ∣∣ b <<< 8 ∣∣ c <<< 16 ∣∣ d <<< 24) ≡ a ∷ b ∷ c ∷ d ∷ []
bytes32-or32 a b c d ha hb hc hd = rw (or32 a b c d ha hb hc) (ground arith)

pub bytes64-or64 :
    (a b c d e f g h : ℕ)
    → a < 256
    → b < 256
    → c < 256
    → d < 256
    → e < 256
    → f < 256
    → g < 256
    → h < 256
    → bytes64 (a ∣∣ b <<< 8 ∣∣ c <<< 16 ∣∣ d <<< 24 ∣∣ e <<< 32 ∣∣ f <<< 40 ∣∣ g <<< 48 ∣∣ h <<< 56)
      ≡ a ∷ b ∷ c ∷ d ∷ e ∷ f ∷ g ∷ h ∷ []
bytes64-or64 a b c d e f g h ha hb hc hd he hf hg hh =
    rw
      (
        or32 a b c d ha hb hc,
        or64_high (a + b * 2 ^ 8 + c * 2 ^ 16 + d * 2 ^ 24) e f g h (omega arith) he hf hg,
      )
      (ground arith)

or64-lt :
    (a b c d e f g h : ℕ)
    → a < 256
    → b < 256
    → c < 256
    → d < 256
    → e < 256
    → f < 256
    → g < 256
    → h < 256
    → (a ∣∣ b <<< 8 ∣∣ c <<< 16 ∣∣ d <<< 24 ∣∣ e <<< 32 ∣∣ f <<< 40 ∣∣ g <<< 48 ∣∣ h <<< 56)
      < 2 ^ 64
or64-lt a b c d e f g h ha hb hc hd he hf hg hh =
    rw
      (
        or32 a b c d ha hb hc,
        or64_high (a + b * 2 ^ 8 + c * 2 ^ 16 + d * 2 ^ 24) e f g h (omega arith) he hf hg,
      )
      (omega arith)

-- What a successful read means: the value fits its width and its bytes are those of the buffer.
pub record Field (width : ℕ) (bytes : ℕ → List ℕ) (n off : ℕ) (buf : List ℕ) (read : Option ℕ)
    : Type 0 where
  pub value : ℕ
  pub returns : read ≡ some value
  pub fits : value < 2 ^ width
  pub there : drop off buf ≡ bytes value ++ drop (off + n) buf

module _ (buf : List ℕ) (bytes : IsBytes buf) where
  -- The byte at a position inside the buffer, and the rest of the buffer behind it.
  record Byte (off next : ℕ) : Type 0 where
    value : ℕ
    loads : load buf off ≡ some value
    small : value < 256
    here : drop off buf ≡ value ∷ drop next buf

  byte : (off next : ℕ) → off + 1 ≡ next → next ≤ length buf → Byte off next
  byte off next h fits =
      let (b, e) = get_elem?-total buf off (omega arith) in
      record {
        value = b;
        loads = e;
        small = IsBytes-get_elem? buf off bytes e;
        here = drop-get_elem? off next buf h e;
      }

  field16 :
      (off : ℕ)
      → Byte off (off + 1)
      → Byte (off + 1) (off + 2)
      → Field 16 bytes16 2 off buf (read16 off buf)
  unfolding read16
  field16 off b0 b1 = record {
    value = b0.value ∣∣ b1.value <<< 8;
    returns = rw (b0.loads, b1.loads);
    fits = omega (arith, or16 b0.value b1.value b0.small, b0.small, b1.small);
    there =
        rw (b0.here, b1.here)
          (ap (λ l. l ++ drop (off + 2) buf)
            (sym (bytes16-or16 b0.value b1.value b0.small b1.small)));
  }

  field32 :
      (off : ℕ)
      → Byte off (off + 1)
      → Byte (off + 1) (off + 2)
      → Byte (off + 2) (off + 3)
      → Byte (off + 3) (off + 4)
      → Field 32 bytes32 4 off buf (read32 off buf)
  unfolding read32
  field32 off b0 b1 b2 b3 = record {
    value = b0.value ∣∣ b1.value <<< 8 ∣∣ b2.value <<< 16 ∣∣ b3.value <<< 24;
    returns = rw (b0.loads, b1.loads, b2.loads, b3.loads);
    fits =
        rw (or32 b0.value b1.value b2.value b3.value b0.small b1.small b2.small)
          (omega (arith, b0.small, b1.small, b2.small, b3.small));
    there =
        rw (b0.here, b1.here, b2.here, b3.here)
          (ap (λ l. l ++ drop (off + 4) buf)
            (sym (
              bytes32-or32 b0.value b1.value b2.value b3.value b0.small b1.small b2.small
                b3.small)));
  }

  field64 :
      (off : ℕ)
      → Byte off (off + 1)
      → Byte (off + 1) (off + 2)
      → Byte (off + 2) (off + 3)
      → Byte (off + 3) (off + 4)
      → Byte (off + 4) (off + 5)
      → Byte (off + 5) (off + 6)
      → Byte (off + 6) (off + 7)
      → Byte (off + 7) (off + 8)
      → Field 64 bytes64 8 off buf (read64 off buf)
  unfolding read64
  field64 off b0 b1 b2 b3 b4 b5 b6 b7 = record {
    value =
        b0.value
        ∣∣ b1.value <<< 8
        ∣∣ b2.value <<< 16
        ∣∣ b3.value <<< 24
        ∣∣ b4.value <<< 32
        ∣∣ b5.value <<< 40
        ∣∣ b6.value <<< 48
        ∣∣ b7.value <<< 56;
    returns = rw (b0.loads, b1.loads, b2.loads, b3.loads, b4.loads, b5.loads, b6.loads, b7.loads);
    fits =
        or64-lt b0.value b1.value b2.value b3.value b4.value b5.value b6.value b7.value b0.small
          b1.small b2.small b3.small b4.small b5.small b6.small b7.small;
    there =
        rw (b0.here, b1.here, b2.here, b3.here, b4.here, b5.here, b6.here, b7.here)
          (ap (λ l. l ++ drop (off + 8) buf)
            (sym (
              bytes64-or64 b0.value b1.value b2.value b3.value b4.value b5.value b6.value b7.value
                b0.small b1.small b2.small b3.small b4.small b5.small b6.small b7.small)));
  }

  -- Inside the buffer a field is read, and it holds the integer whose bytes stand there.
  pub read16-Field : (off : ℕ) → off + 2 ≤ length buf → Field 16 bytes16 2 off buf (read16 off buf)
  read16-Field off h =
      field16 off (byte off (off + 1) refl (omega arith))
        (byte (off + 1) (off + 2) (omega arith) (omega arith))

  pub read32-Field : (off : ℕ) → off + 4 ≤ length buf → Field 32 bytes32 4 off buf (read32 off buf)
  read32-Field off h =
      field32 off (byte off (off + 1) refl (omega arith))
        (byte (off + 1) (off + 2) (omega arith) (omega arith))
        (byte (off + 2) (off + 3) (omega arith) (omega arith))
        (byte (off + 3) (off + 4) (omega arith) (omega arith))

  pub read64-Field : (off : ℕ) → off + 8 ≤ length buf → Field 64 bytes64 8 off buf (read64 off buf)
  read64-Field off h =
      field64 off (byte off (off + 1) refl (omega arith))
        (byte (off + 1) (off + 2) (omega arith) (omega arith))
        (byte (off + 2) (off + 3) (omega arith) (omega arith))
        (byte (off + 3) (off + 4) (omega arith) (omega arith))
        (byte (off + 4) (off + 5) (omega arith) (omega arith))
        (byte (off + 5) (off + 6) (omega arith) (omega arith))
        (byte (off + 6) (off + 7) (omega arith) (omega arith))
        (byte (off + 7) (off + 8) (omega arith) (omega arith))

pub IsBytes-append : (s t : List ℕ) → IsBytes s → IsBytes t → IsBytes (s ++ t)
IsBytes-append [] t hs ht = ht
IsBytes-append (x ∷ s) t hs ht = (hs.0, IsBytes-append s t hs.1 ht)

pub IsBytes-drop : (k : ℕ) (s : List ℕ) → IsBytes s → IsBytes (drop k s)
IsBytes-drop zero s h = h
IsBytes-drop (suc k) [] h = h
IsBytes-drop (suc k) (x ∷ s) h = IsBytes-drop k s h.1

pub IsBytes-overwrite :
    (off : ℕ) (vs buf : List ℕ) → IsBytes vs → IsBytes buf → IsBytes (overwrite off vs buf)
IsBytes-overwrite zero vs buf hv hb =
    IsBytes-append vs (drop (length vs) buf) hv (IsBytes-drop (length vs) buf hb)
IsBytes-overwrite (suc off) vs [] hv hb = hb
IsBytes-overwrite (suc off) vs (x ∷ buf) hv hb = (hb.0, IsBytes-overwrite off vs buf hv hb.1)
