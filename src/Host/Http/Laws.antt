-- ===== src/Host/Http/Laws.antt =====
-- The log of apps/desktop/src/http_server.cpp.
use psp_dev_link.Base.{
  ℕ, ◌+◌, ◌-◌, ◌≤◌, ◌≡◌, sym, ap, ◌∙◌, List, [], ◌∷◌, ◌++◌, drop, length, ltb, if◌then◌else◌,
  Bool-cases, inl, inr, arith, length-append, length-drop,
}
use psp_dev_link.Host.Lists.{drop-append, drop-drop, drop_zero, append_assoc, append_nil}
use psp_dev_link.Host.Http.{HttpServer, add_log}
use psp_dev_link.Host.Http.Json.{SharedLogEntry}

abbrev pub add_logs : List SharedLogEntry → HttpServer → HttpServer
add_logs [] s = s
add_logs (e ∷ es) s = add_logs es (add_log e.message e.type s)

-- The last `n` of a list.
abbrev pub latest {ℓ} : {A : Type ℓ} → ℕ → List A → List A
latest n xs = drop (length xs - n) xs

latest-append :
    {A : Type 0} → (n : ℕ) (xs ys : List A) → latest n (latest n xs ++ ys) ≡ latest n (xs ++ ys)
latest-append n xs ys =
    let k = length xs - n in
    let all = xs ++ ys in
    let merged : latest n xs ++ ys ≡ drop k all = sym (drop-append k xs ys (omega arith)) in
    let total : k + (length (drop k all) - n) ≡ length all - n =
      omega (arith, length-drop k all, length-append xs ys) in
    ap (latest n) merged ∙ drop-drop (length (drop k all) - n) k all ∙ ap (λ r. drop r all) total

latest-short : {A : Type 0} → (xs : List A) → length xs ≤ 100 → xs ≡ latest 100 xs
latest-short xs h =
    let none_over : 0 ≡ length xs - 100 = omega arith in
    drop_zero xs ∙ ap (λ k. drop k xs) none_over

keep_latest :
    {A : Type 0}
    → (xs : List A) → length xs ≤ 101
    → (if ltb 100 (length xs) then drop 1 xs else xs) ≡ latest 100 xs
keep_latest xs h = elim (Bool-cases (ltb 100 (length xs))) [
  | inl full ↦
      let one : 1 ≡ length xs - 100 = ground (arith, full) in rw full (ap (λ k. drop k xs) one)
  | inr room ↦ rw room (latest-short xs (ground (arith, room)))
]

pub add_log-latest :
    (m t : List ℕ) (s : HttpServer)
    → length s.logs ≤ 100
    → (add_log m t s).logs ≡ latest 100 (s.logs ++ (record { message = m; type = t } ∷ []))
unfolding add_log
add_log-latest m t s h =
    let one = record { message = m; type = t } ∷ [] in
    keep_latest (s.logs ++ one) (omega (arith, length-append s.logs one))

pub add_log-bounded :
    (m t : List ℕ) (s : HttpServer) → length s.logs ≤ 100 → length (add_log m t s).logs ≤ 100
add_log-bounded m t s h =
    let all = s.logs ++ (record { message = m; type = t } ∷ []) in
    rw (add_log-latest m t s h) (omega (arith, length-drop (length all - 100) all))

-- A log of at most 100 entries has, after any number of further messages, the last 100 of all
-- there have been, in their order.
pub add_logs-latest :
    (es : List SharedLogEntry) (s : HttpServer)
    → length s.logs ≤ 100
    → (add_logs es s).logs ≡ latest 100 (s.logs ++ es)
add_logs-latest [] s h = latest-short s.logs h ∙ ap (latest 100) (sym (append_nil s.logs))
add_logs-latest (e ∷ es) s h =
    let one = e ∷ [] in
    let added : (add_log e.message e.type s).logs ≡ latest 100 (s.logs ++ one) =
      add_log-latest e.message e.type s h in
    let few : length (latest 100 (s.logs ++ one)) ≤ 100 =
      omega (arith, length-drop (length (s.logs ++ one) - 100) (s.logs ++ one)) in
    add_logs-latest es (add_log e.message e.type s) (rw added few)
    ∙ ap (λ r. latest 100 (r ++ es)) added
    ∙ latest-append 100 (s.logs ++ one) es
    ∙ ap (latest 100) (append_assoc s.logs one es)
