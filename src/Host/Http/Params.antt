-- ===== src/Host/Http/Params.antt =====
-- The request line and the parameters that apps/desktop/src/http_server.cpp reads.
use psp_dev_link.Base.{
  ℕ, ◌+◌, List, [], ◌∷◌, ◌++◌, Option, none, some, take, drop, length, if◌then◌else◌, codes,
}
use psp_dev_link.Host.Text.{find, find_char, is_space, trim_front}

-- `method` and `path`; the third word is not used.
pub record Words : Type 0 where
  pub method : List ℕ
  pub path : List ℕ

-- `>>` into a string: the characters up to the next space, and what is left.
unfoldable pub word : List ℕ → List ℕ × List ℕ
word [] = ([], [])
word (c ∷ s) = let (w, rest) = word s in if is_space c then ([], c ∷ s) else (c ∷ w, rest)

unfoldable pub words : List ℕ → Words
unfolding word trim_front
words request =
    let (method, rest) = word (trim_front request) in
    let (path, rest') = word (trim_front rest) in record { method = method; path = path }

-- The text up to the next `&`.
abbrev pub until : Option ℕ → List ℕ → List ℕ
until none s = s
until (some n) s = take n s

-- The value that begins at a position.
unfoldable pub value_at : ℕ → List ℕ → List ℕ
unfolding find_char
value_at n text = until (find_char b'&' (drop n text)) (drop n text)

abbrev pub first_of : Option ℕ → Option ℕ → Option ℕ
first_of none other = other
first_of (some n) other = some n

-- The value behind a key and its sign, which has one character more than the key has.
abbrev pub query_value : Option ℕ → List ℕ → List ℕ → List ℕ
unfolding value_at
query_value none path key = []
query_value (some n) path key = value_at (n + (length key + 2)) path

unfoldable pub get_query_param : List ℕ → List ℕ → List ℕ
unfolding find value_at
get_query_param path key =
    query_value
      (first_of (find (b'?' ∷ key ++ codes "=") path) (find (b'&' ∷ key ++ codes "=") path)) path
      key

abbrev pub post_value : Option ℕ → List ℕ → List ℕ → List ℕ
unfolding value_at
post_value none body key = []
post_value (some n) body key = value_at (n + (length key + 1)) body

unfoldable pub get_post_param : List ℕ → List ℕ → List ℕ
unfolding find value_at
get_post_param body key = post_value (find (key ++ codes "=") body) body key
