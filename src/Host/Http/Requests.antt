-- ===== src/Host/Http/Requests.antt =====
-- The requests that apps/desktop/src/http_server.cpp answers.
use psp_dev_link.Base.{
  ℕ, zero, suc, ◌≤◌, ◌^◌, ◌≡◌, refl, List, [], ◌∷◌, Option, none, some, ℤ, ◌>>=◌, codes, true, ltb,
  leb, ◌==◌, ◌&&◌, ◌||◌, Bool-cases, inl, inr, arith, if_intro,
}
use psp_dev_link.Host.Text.{
  text_eq, is_empty, stoi, read_signed, read_positive, read_negative, read_digits, starts_digit,
  negate, trim_front, starts_with, find,
}
use psp_dev_link.Host.Text.Laws.{IsInt}
use psp_dev_link.Host.Config.{ConfigService, load}
use psp_dev_link.Host.Config.Laws.{IsConfig, load-save}
use psp_dev_link.Payload.Chars.{c_text}
use psp_dev_link.Host.Http.Params.{Words, words, get_post_param, get_query_param}
use psp_dev_link.Host.Http.{
  HttpServer, post_settings, post_config, posted_int, posted_flag, answer, post_control,
  handle_client, body_at,
}

-- What is read, if anything is, satisfies a predicate.
abbrev pub Holds : {A : Type 0} → (A → Type 0) → Option A → Type 0
Holds P none = Unit
Holds P (some a) = P a

read_positive-IsInt : (s : List ℕ) → Holds IsInt (read_positive s)
unfolding read_positive
read_positive-IsInt s = elim (Bool-cases (starts_digit s && ltb (read_digits 0 s) (2 ^ 31))) [
  | inl fits ↦ rw fits (ground (arith, fits))
  | inr large ↦ rw large tt
]

negate-IsInt : (n : ℕ) → n ≤ 2 ^ 31 → IsInt (negate n)
negate-IsInt zero h = omega arith
negate-IsInt (suc n) h = omega arith

read_negative-IsInt : (s : List ℕ) → Holds IsInt (read_negative s)
unfolding read_negative
read_negative-IsInt s = elim (Bool-cases (starts_digit s && leb (read_digits 0 s) (2 ^ 31))) [
  | inl fits ↦ rw fits (negate-IsInt (read_digits 0 s) (ground (arith, fits)))
  | inr large ↦ rw large tt
]

read_signed-IsInt : (s : List ℕ) → Holds IsInt (read_signed s)
unfolding read_signed
read_signed-IsInt [] = tt
read_signed-IsInt (c ∷ s) =
    if_intro (Holds IsInt) (c == b'-') _ _ (read_negative-IsInt s)
      (if_intro (Holds IsInt) (c == b'+') _ _ (read_positive-IsInt s) (read_positive-IsInt (c ∷ s)))

stoi-IsInt : (s : List ℕ) → Holds IsInt (stoi s)
unfolding stoi
stoi-IsInt s = read_signed-IsInt (trim_front s)

posted_int-IsInt : (text : List ℕ) (old : ℤ) → IsInt old → Holds IsInt (posted_int text old)
unfolding posted_int
posted_int-IsInt text old h = if_intro (Holds IsInt) (is_empty text) _ _ h (stoi-IsInt text)

then-Holds :
    {A B : Type 0}
    → (P : A → Type 0) (Q : B → Type 0) (a : Option A) (f : A → B) → Holds P a
    → ((x : A) → P x → Q (f x))
    → Holds Q (a >>= λ x. some (f x))
then-Holds P Q none f h k = tt
then-Holds P Q (some x) f h k = k x h

two-Holds :
    {A B : Type 0}
    → (P : A → Type 0) (Q : B → Type 0) (a b : Option A) (f : A → A → B) → Holds P a
    → Holds P b
    → ((x y : A) → P x → P y → Q (f x y))
    → Holds Q (a >>= λ x. b >>= λ y. some (f x y))
two-Holds P Q none b f h g k = tt
two-Holds P Q (some x) none f h g k = tt
two-Holds P Q (some x) (some y) f h g k = k x y h g

post_settings-IsConfig :
    (body : List ℕ) (c : ConfigService) → IsConfig c → Holds IsConfig (post_settings body c)
unfolding post_settings
post_settings-IsConfig body c ok =
    two-Holds IsInt IsConfig
      (posted_int (get_post_param body (codes "telemetry_interval")) c.telemetry_interval_ms)
      (posted_int (get_post_param body (codes "git_interval")) c.git_interval_ms)
      (λ tel git. record c {
        telemetry_interval_ms = tel;
        git_interval_ms = git;
        enable_git = posted_flag (get_post_param body (codes "enable_git")) c.enable_git;
        enable_notif = posted_flag (get_post_param body (codes "enable_notif")) c.enable_notif;
      })
      (posted_int-IsInt (get_post_param body (codes "telemetry_interval")) c.telemetry_interval_ms
        ok.telemetry_fits)
      (posted_int-IsInt (get_post_param body (codes "git_interval")) c.git_interval_ms ok.git_fits)
      (λ tel git tel_fits git_fits. record {
        telemetry_fits = tel_fits;
        git_fits = git_fits;
        notif_fits = ok.notif_fits;
      })

-- An answered request for other settings: they fit, and the file gives them to the next start.
pub record Persists (c0 : ConfigService) (answered : List ℕ × HttpServer) : Type 0 where
  pub fits : IsConfig answered.1.config
  pub loads : load c0 answered.1.file ≡ (answered.1.config, answered.1.file)

-- From settings that fit their 32 bits and with a file that can be written, an answered request
-- for other settings, whatever its body, leaves settings that fit, and a file from which the next
-- start reads exactly these, whatever settings `c0` it starts from.
pub post_config-Persists :
    (body : List ℕ) (s : HttpServer) (c0 : ConfigService)
    → IsConfig s.config
    → s.file.writable ≡ true
    → Holds (Persists c0) (post_config body s)
unfolding post_config
post_config-Persists body s c0 ok open_file =
    then-Holds IsConfig (Persists c0) (post_settings body s.config) _
      (post_settings-IsConfig body s.config ok)
      (λ c fits. record { fits = fits; loads = load-save c c0 s.file fits open_file })

abbrev pub IsAnswered : HttpServer → Option (List ℕ × HttpServer) → Type 0
IsAnswered s r = (response : List ℕ) × (r ≡ some (response, s))

-- Every request with GET is answered, whatever its path, and changes nothing on the server.
pub answer-get :
    (page path body : List ℕ) (s : HttpServer)
    → (response : List ℕ) × (answer page (codes "GET") path body s ≡ some (response, s))
unfolding answer text_eq
answer-get page path body s =
    if_intro (IsAnswered s) (text_eq path (codes "/") || text_eq path (codes "/index.html")) _ _
      (_, refl)
      (if_intro (IsAnswered s) (starts_with (codes "/api/status") path) _ _ (_, refl) (_, refl))

-- A request changes nothing in the log.
abbrev pub KeepsLogs : {A : Type 0} → HttpServer → A × HttpServer → Type 0
KeepsLogs s (r, s') = s'.logs ≡ s.logs

post_control-KeepsLogs : (path : List ℕ) (s : HttpServer) → KeepsLogs s (post_control path s)
unfolding post_control
post_control-KeepsLogs path s =
    let action = get_query_param path (codes "action") in
    if_intro (KeepsLogs s) (text_eq action (codes "exit")) _ _ refl
      (if_intro (KeepsLogs s) (text_eq action (codes "reboot")) _ _ refl refl)

answer-KeepsLogs :
    (page method path body : List ℕ) (s : HttpServer)
    → Holds (KeepsLogs s) (answer page method path body s)
unfolding answer post_config
answer-KeepsLogs page method path body s =
    if_intro (Holds (KeepsLogs s))
      (text_eq method (codes "GET")
        && (text_eq path (codes "/") || text_eq path (codes "/index.html")))
      _ _ refl
      (if_intro (Holds (KeepsLogs s))
        (text_eq method (codes "GET") && starts_with (codes "/api/status") path) _ _ refl
        (if_intro (Holds (KeepsLogs s))
          (text_eq method (codes "POST") && starts_with (codes "/api/config") path) _ _
          (then-Holds (λ (c : ConfigService). Unit {0}) (KeepsLogs s) (post_settings body s.config)
            _ (any (post_settings body s.config)) (λ c u. refl))
          (if_intro (Holds (KeepsLogs s))
            (text_eq method (codes "POST") && starts_with (codes "/api/control") path) _ _
            (post_control-KeepsLogs path s) refl)))
  where
    any : (o : Option ConfigService) → Holds (λ c. Unit {0}) o
    any none = tt
    any (some c) = tt

pub handle_client-KeepsLogs :
    (page buffer : List ℕ) (s : HttpServer) → Holds (KeepsLogs s) (handle_client page buffer s)
unfolding handle_client
handle_client-KeepsLogs page [] s = refl
handle_client-KeepsLogs page (c ∷ buffer) s =
    let request = c_text (c ∷ buffer) in
    let w : Words = words request in
    let body = body_at (find (codes "\r\n\r\n") request) request in
    then-Holds (KeepsLogs s) (KeepsLogs s) (answer page w.method w.path body s)
      (λ (response, s'). (some response, s')) (answer-KeepsLogs page w.method w.path body s)
      (λ r k. k)
