-- ===== src/Payload/Chars/Laws.antt =====
-- What the character loops of shared/protocol/src/payload.c do to the arrays.
use psp_dev_link.Base.{
  ℕ, zero, suc, ◌+◌, ◌-◌, ◌≤◌, ◌≡◌, refl, Bool, true, false, List, [], ◌∷◌, ◌++◌, Option, some,
  ◌>>=◌, store, memset, store_all, length, replicate, take, drop, set, ◌==◌, Bool-cases, inl, inr,
  get_elem?-total, drop-get_elem?, store_all-overwrite, memset-store_all, overwrite, length-append,
  length-take, length-drop, length-replicate, lt→ltb, arith, ap, sym, ◌∙◌,
}
use mathlib.Core.Path.{ap₂, fun_ext, ◌≡⟨◌⟩◌, ◌∎}
use mathlib.Core.List.{append-nil, append_assoc}
use native.Mathlib.Nat.{sub-zero, suc-sub-suc}
use psp_dev_link.Payload.Chars.{
  copy_until_nul, copy_chars, read_chars, c_string, nul_padded, c_text, IsTerminated, strcmp_eq,
}

pub length-c_string : (n : ℕ) (s : List ℕ) → length (c_string n s) ≤ n
length-c_string zero s = omega arith
length-c_string (suc n) [] = omega arith
length-c_string (suc n) (c ∷ s) = ground (arith, length-c_string n s)

-- The first loop stores the C string of the array, cut at the loop's bound.
pub copy_until_nul-store_all :
    (left i off : ℕ) (src buf : List ℕ)
    → i + left ≤ length src
    → copy_until_nul left i off src buf ≡ store_all (off + i) (c_string left (drop i src)) buf
unfolding copy_until_nul store_all
copy_until_nul-store_all zero i off src buf h = refl
copy_until_nul-store_all (suc left) i off src buf h =
    let (c, e) = get_elem?-total src i (omega arith) in
    elim (Bool-cases (c == 0)) [
      | inl stop ↦ rw (e, drop-get_elem? i (suc i) src (omega arith) e, stop)
      | inr go ↦
          rw (e, drop-get_elem? i (suc i) src (omega arith) e, go)
            (ap (λ k. store buf (off + i) c >>= k)
              (fun_ext λ b.
                copy_until_nul-store_all left (suc i) off src b (omega arith)
                ∙ ap (λ (k : ℕ). store_all k (c_string left (drop (suc i) src)) b) (omega arith)))
    ]

-- The second loop stores the characters of the buffer.
copy_chars-store_all :
    (left i off : ℕ) (buf dst : List ℕ)
    → off + i + left ≤ length buf
    → copy_chars left i off buf dst ≡ store_all i (take left (drop (off + i) buf)) dst
unfolding copy_chars store_all
copy_chars-store_all zero i off buf dst h = refl
copy_chars-store_all (suc left) i off buf dst h =
    let (c, e) = get_elem?-total buf (off + i) (omega arith) in
    rw (e, drop-get_elem? (off + i) (off + suc i) buf (omega arith) e)
      (ap (λ k. store dst i c >>= k)
        (fun_ext λ d. copy_chars-store_all left (suc i) off buf d (omega arith)))

pub drop-replicate :
    (k n v : ℕ) (rest : List ℕ)
    → k ≤ n
    → drop k (replicate n v ++ rest) ≡ replicate (n - k) v ++ rest
drop-replicate zero n v rest h = rw sub-zero
drop-replicate (suc k) zero v rest h = absurd (omega arith)
drop-replicate (suc k) (suc n) v rest h = rw suc-sub-suc (drop-replicate k n v rest (omega arith))

drop-all : (s : List ℕ) → drop (length s) s ≡ []
drop-all [] = refl
drop-all (x ∷ s) = drop-all s

take-append : (n : ℕ) (s t : List ℕ) → length s ≤ n → take n (s ++ t) ≡ s ++ take (n - length s) t
take-append n [] t h = rw sub-zero
take-append zero (x ∷ s) t h = absurd (omega arith)
take-append (suc n) (x ∷ s) t h = rw suc-sub-suc (ap (λ l. x ∷ l) (take-append n s t (omega arith)))

take-replicate :
    (k n v : ℕ) (rest : List ℕ) → k ≤ n → take k (replicate n v ++ rest) ≡ replicate k v
take-replicate zero n v rest h = refl
take-replicate (suc k) zero v rest h = absurd (omega arith)
take-replicate (suc k) (suc n) v rest h = ap (λ l. v ∷ l) (take-replicate k n v rest (omega arith))

-- The element behind `s` is set.
set-append : (s : List ℕ) (x v : ℕ) (t : List ℕ) → set (s ++ (x ∷ t)) (length s) v ≡ s ++ (v ∷ t)
set-append [] x v t = refl
set-append (y ∷ s) x v t = ap (λ l. y ∷ l) (set-append s x v t)

drop-replicate_last : (n v : ℕ) → drop n (replicate (suc n) v) ≡ v ∷ []
drop-replicate_last zero v = refl
drop-replicate_last (suc n) v = drop-replicate_last n v

-- `memset` over the whole of an array.
memset_all : (k v : ℕ) (dst : List ℕ) → length dst ≡ k → memset k 0 v dst ≡ some (replicate k v)
memset_all k v dst same =
    memset-store_all k 0 v dst
    ∙ store_all-overwrite 0 (replicate k v) dst (omega (arith, length-replicate k v))
    ∙ ap some (ap (λ l. replicate k v ++ l) nothing_left ∙ append-nil (replicate k v))
  where
    nothing_left : drop (length (replicate k v)) dst ≡ []
    nothing_left = rw (length-replicate k v, ← same) (drop-all dst)

-- Characters in a cleared array one element longer.
store_chars : (cs : List ℕ) → store_all 0 cs (replicate (suc (length cs)) 0) ≡ some (cs ++ (0 ∷ []))
store_chars cs =
    store_all-overwrite 0 cs (replicate (suc (length cs)) 0)
      (omega (arith, length-replicate {A = ℕ} (suc (length cs)) 0))
    ∙ ap (λ l. some (cs ++ l)) (drop-replicate_last (length cs) 0)

store_nul :
    (k : ℕ) (cs : List ℕ) → length cs ≡ k → store (cs ++ (0 ∷ [])) k 0 ≡ some (cs ++ (0 ∷ []))
store_nul k cs e =
    rw (lt→ltb k (length (cs ++ (0 ∷ []))) (omega (arith, length-append cs (0 ∷ []))))
      (ap (λ (n : ℕ). some (set (cs ++ (0 ∷ [])) n 0)) (sym e) ∙ ap some (set-append cs 0 0 []))

-- A character array of `suc n` elements takes `n` characters of the buffer and a NUL.
pub read_chars_lem :
    (n off : ℕ) (buf dst : List ℕ)
    → length dst ≡ suc n
    → off + n ≤ length buf
    → read_chars (suc n) off buf dst ≡ some (take n (drop off buf) ++ (0 ∷ []))
unfolding read_chars
read_chars_lem n off buf dst same h =
    rw (memset_all (suc n) 0 dst same, one_less)
      (rw (copy_chars-store_all n 0 off buf (replicate (suc n) 0) (omega arith), at_off)
        (rw copied (store_nul n (take n (drop off buf)) count)))
  where
    one_less : suc n - 1 ≡ n
    one_less = omega arith

    at_off : off + 0 ≡ off
    at_off = omega arith

    count : length (take n (drop off buf)) ≡ n
    count = omega (arith, length-take n (drop off buf), length-drop off buf)

    copied :
        store_all 0 (take n (drop off buf)) (replicate (suc n) 0)
        ≡ some (take n (drop off buf) ++ (0 ∷ []))
    copied =
        ap (λ (k : ℕ). store_all 0 (take n (drop off buf)) (replicate (suc k) 0)) (sym count)
        ∙ store_chars (take n (drop off buf))

replicate-snoc : (n v : ℕ) → replicate n v ++ (v ∷ []) ≡ replicate (suc n) v
replicate-snoc zero v = refl
replicate-snoc (suc n) v = ap (λ l. v ∷ l) (replicate-snoc n v)

-- A NUL-padded array in a buffer is read back as it is.
pub take-nul_padded :
    (n : ℕ) (s rest : List ℕ) → take n (nul_padded n s ++ rest) ++ (0 ∷ []) ≡ nul_padded n s
take-nul_padded n s rest =
    take n (nul_padded n s ++ rest) ++ (0 ∷ [])
    ≡⟨ ap (λ l. take n l ++ (0 ∷ [])) (append_assoc cs (replicate (suc n - k) 0) rest) ⟩
      take n (cs ++ (replicate (suc n - k) 0 ++ rest)) ++ (0 ∷ [])
    ≡⟨ ap (λ l. l ++ (0 ∷ [])) (take-append n cs (replicate (suc n - k) 0 ++ rest) short) ⟩
      (cs ++ take (n - k) (replicate (suc n - k) 0 ++ rest)) ++ (0 ∷ [])
    ≡⟨ ap (λ l. (cs ++ l) ++ (0 ∷ []))
        (take-replicate (n - k) (suc n - k) 0 rest (omega (arith, short))) ⟩
      (cs ++ replicate (n - k) 0) ++ (0 ∷ [])
    ≡⟨ append_assoc cs (replicate (n - k) 0) (0 ∷ []) ⟩ cs ++ (replicate (n - k) 0 ++ (0 ∷ []))
    ≡⟨ ap (λ l. cs ++ l) (replicate-snoc (n - k) 0 ∙ ap (λ (j : ℕ). replicate j 0) one_more) ⟩
      nul_padded n s ∎
  where
    cs : List ℕ
    cs = c_string n s

    k : ℕ
    k = length (c_string n s)

    short : length (c_string n s) ≤ n
    short = length-c_string n s

    one_more : suc (n - length (c_string n s)) ≡ suc n - length (c_string n s)
    one_more = omega (arith, short)

-- The array keeps the C string.
pub c_string-append_nul :
    (n : ℕ) (s zs : List ℕ) → c_string n (c_string n s ++ (0 ∷ zs)) ≡ c_string n s
c_string-append_nul zero s zs = refl
c_string-append_nul (suc n) [] zs = refl
c_string-append_nul (suc n) (c ∷ s) zs = elim (Bool-cases (c == 0)) [
  | inl stop ↦ rw stop
  | inr go ↦ rw (go, go) (ap (λ l. c ∷ l) (c_string-append_nul n s zs))
]

pub c_string-nul_padded : (n : ℕ) (s : List ℕ) → c_string n (nul_padded n s) ≡ c_string n s
c_string-nul_padded n s =
    ap (λ (k : ℕ). c_string n (c_string n s ++ replicate k 0)) more
    ∙ c_string-append_nul n s (replicate (n - length (c_string n s)) 0)
  where
    more : suc n - length (c_string n s) ≡ suc (n - length (c_string n s))
    more = omega (arith, length-c_string n s)

pub length-nul_padded : (n : ℕ) (s : List ℕ) → length (nul_padded n s) ≡ suc n
length-nul_padded n s = omega (
  arith,
  length-append (c_string n s) (replicate (suc n - length (c_string n s)) 0),
  length-replicate {A = ℕ} (suc n - length (c_string n s)) 0,
  length-c_string n s,
)

overwrite-append : (p vs r : List ℕ) → overwrite (length p) vs (p ++ r) ≡ p ++ overwrite 0 vs r
overwrite-append [] vs r = refl
overwrite-append (x ∷ p) vs r = ap (λ l. x ∷ l) (overwrite-append p vs r)

-- The first loop, run into a cleared field of `m` elements behind `p`, leaves the C string there
-- with NULs behind it.
pub copy_until_nul-cleared :
    (n m off : ℕ) (s p rest : List ℕ)
    → n ≤ length s
    → n ≤ m
    → length p ≡ off
    → copy_until_nul n 0 off s (p ++ (replicate m 0 ++ rest))
      ≡ some (p ++ ((c_string n s ++ replicate (m - length (c_string n s)) 0) ++ rest))
copy_until_nul-cleared n m off s p rest long wide here =
    copy_until_nul-store_all n 0 off s (p ++ (replicate m 0 ++ rest)) (omega arith)
    ∙ ap (λ (k : ℕ). store_all k cs (p ++ (replicate m 0 ++ rest))) (omega arith)
    ∙ store_all-overwrite (length p) cs (p ++ (replicate m 0 ++ rest)) inside
    ∙ ap some (overwrite-append p cs (replicate m 0 ++ rest))
    ∙ ap (λ l. some (p ++ (cs ++ l))) (drop-replicate (length cs) m 0 rest (omega (arith, short)))
    ∙ ap (λ l. some (p ++ l)) (sym (append_assoc cs (replicate (m - length cs) 0) rest))
  where
    cs : List ℕ
    cs = c_string n s

    short : length (c_string n s) ≤ n
    short = length-c_string n s

    inside : length p + length (c_string n s) ≤ length (p ++ (replicate m 0 ++ rest))
    inside = omega (
      arith,
      short,
      length-append p (replicate m 0 ++ rest),
      length-append (replicate m 0) rest,
      length-replicate {A = ℕ} m 0,
    )

-- `memset` of a field behind `p`.
pub memset-field :
    (m off v : ℕ) (p rest : List ℕ)
    → m ≤ length rest
    → length p ≡ off
    → memset m off v (p ++ rest) ≡ some (p ++ (replicate m v ++ drop m rest))
memset-field m off v p rest wide here =
    memset-store_all m off v (p ++ rest)
    ∙ ap (λ (k : ℕ). store_all k (replicate m v) (p ++ rest)) (sym here)
    ∙ store_all-overwrite (length p) (replicate m v) (p ++ rest)
        (omega (arith, length-append p rest, length-replicate {A = ℕ} m v))
    ∙ ap some (overwrite-append p (replicate m v) rest)
    ∙ ap (λ (k : ℕ). some (p ++ (replicate m v ++ drop k rest))) (length-replicate m v)

pub drop-append_length : (k : ℕ) (p r : List ℕ) → length p ≡ k → drop k (p ++ r) ≡ r
drop-append_length zero [] r e = refl
drop-append_length zero (x ∷ p) r e = absurd (omega arith)
drop-append_length (suc k) [] r e = absurd (omega arith)
drop-append_length (suc k) (x ∷ p) r e = drop-append_length k p r (omega arith)

-- A NUL-padded array that stands at `off` in a buffer is read back.
pub read_chars-nul_padded :
    (n off : ℕ) (s p rest dst buf : List ℕ)
    → buf ≡ p ++ (nul_padded n s ++ rest)
    → length p ≡ off
    → length dst ≡ suc n
    → read_chars (suc n) off buf dst ≡ some (nul_padded n s)
read_chars-nul_padded n off s p rest dst buf e here same =
    read_chars_lem n off buf dst same (omega (arith, ap length e, whole, part, field))
    ∙ ap (λ l. some (take n (drop off l) ++ (0 ∷ []))) e
    ∙ ap (λ l. some (take n l ++ (0 ∷ []))) (drop-append_length off p (nul_padded n s ++ rest) here)
    ∙ ap some (take-nul_padded n s rest)
  where
    whole : length (p ++ (nul_padded n s ++ rest)) ≡ length p + length (nul_padded n s ++ rest)
    whole = length-append p (nul_padded n s ++ rest)

    part : length (nul_padded n s ++ rest) ≡ length (nul_padded n s) + length rest
    part = length-append (nul_padded n s) rest

    field : length (nul_padded n s) ≡ suc n
    field = length-nul_padded n s

-- An array whose last element is a NUL is terminated.
pub IsTerminated-append_nul : (s : List ℕ) → IsTerminated (s ++ (0 ∷ []))
IsTerminated-append_nul [] = tt
IsTerminated-append_nul (c ∷ s) = elim (Bool-cases (c == 0)) [
  | inl stop ↦ rw stop tt
  | inr go ↦ rw go (IsTerminated-append_nul s)
]

tail-injective : {a b : ℕ} {s t : List ℕ} → a ∷ s ≡ b ∷ t → s ≡ t
tail-injective e = cc

-- What a comparison of two strings finds.
pub record Compares (s t : List ℕ) (result : Option Bool) : Type 0 where
  pub equal : Bool
  pub returns : result ≡ some equal
  pub sound : equal ≡ true → c_text s ≡ c_text t
  pub complete : c_text s ≡ c_text t → equal ≡ true

-- On terminated strings the comparison ends inside the arrays, and decides whether the C strings
-- are the same.
pub strcmp_eq-Compares :
    (s t : List ℕ) → IsTerminated s → IsTerminated t → Compares s t (strcmp_eq s t)
unfolding strcmp_eq
strcmp_eq-Compares [] t hs ht = absurd hs
strcmp_eq-Compares (a ∷ s) [] hs ht = absurd ht
strcmp_eq-Compares (a ∷ s) (b ∷ t) hs ht = elim (Bool-cases (a == b)) [
  | inr differ ↦ record {
    equal = false;
    returns = rw differ;
    sound = λ e. cc;
    complete = λ e. ground arith;
  }
  | inl same ↦ elim (Bool-cases (a == 0)) [
    | inl stop ↦ record {
      equal = true;
      returns = rw (same, stop);
      sound = λ e. ground arith;
      complete = λ e. refl;
    }
    | inr go ↦
        let b_go : (b == 0) ≡ false = ground arith in
        let rest = strcmp_eq-Compares s t (rw go at hs) (rw b_go at ht) in
        let heads : a ≡ b = ground arith in
        record {
          equal = rest.equal;
          returns = rw (same, go, rest.returns);
          sound = λ e. rw (go, b_go) (ap₂ ◌∷◌ heads (rest.sound e));
          complete = λ e. rest.complete (tail-injective (rw (go, b_go) at e));
        }
  ]
]
