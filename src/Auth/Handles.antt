-- ===== src/Auth/Handles.antt =====
-- services/auth/internal/usecases/handle.go: the handle that a new user is given.
pub mod Generating
pub mod Tests
use Prim.Native.Char.{Char, code}
use Prim.Native.String.{[], ◌∷◌, ◌++◌, char_at}
use moneymate_backend.Shared.{
  ℕ, zero, suc, ◌+◌, ◌-◌, String, Bool, true, false, ◌&&◌, ◌||◌, List, any, str_eq, leb, ◌==◌,
  if◌then◌else◌,
}
use moneymate_backend.Shared.Text.{trim_space, is_empty}
use moneymate_backend.Shared.Action.{
  Action, Result, ok, err, ◌>>=◌, pure, raise, map_err, external, query,
}
use moneymate_backend.Errors.{DbError, Error, db_error, internal}

-- Of `auth.users` the handles matter here.
pub record HandleDb : Type 0 where
  pub handles : List String

abbrev pub HandleCall : Type 0 → Type 0
HandleCall A = Action DbError HandleDb Error A

unfoldable pub handle_exists : String → Action DbError HandleDb DbError Bool
handle_exists text = query λ d. ok (any (str_eq text) d.handles)

-- `unicode.ToLower`, where it gives an ASCII letter; of other characters none is kept.
abbrev pub lower_char : Char → Char
lower_char c =
    if leb 65 (code c) && leb (code c) 90
    then char_at "abcdefghijklmnopqrstuvwxyz" (code c - 65)
    else if code c == 0x130
    then "i"
    else if code c == 0x212a
    then "k"
    else c

-- `[a-z0-9]`
abbrev pub is_alphanumeric : Char → Bool
is_alphanumeric c = (leb 97 (code c) && leb (code c) 122) || (leb 48 (code c) && leb (code c) 57)

unfoldable pub keep_alphanumeric : String → String
keep_alphanumeric [] = []
keep_alphanumeric (c ∷ s) =
    let rest = keep_alphanumeric s in
    if is_alphanumeric (lower_char c) then lower_char c ∷ rest else rest

unfoldable pub truncate : ℕ → String → String
truncate zero s = []
truncate (suc n) [] = []
truncate (suc n) (c ∷ s) = c ∷ truncate n s

-- `sanitizeAndTruncate`; what is truncated is ASCII, where a character is a byte.
unfoldable pub sanitize_and_truncate : String → String
sanitize_and_truncate s = truncate 15 (keep_alphanumeric (trim_space s))

-- The text before the first `@`, and "" without one.
unfoldable pub before_at : String → String
before_at [] = []
before_at (c ∷ s) = let rest = before_at s in if code c == 64 then [] else c ∷ rest

unfoldable pub has_at : String → Bool
has_at [] = false
has_at (c ∷ s) = code c == 64 || has_at s

-- `baseFromEmail`
unfoldable pub base_from_email : String → String
base_from_email email = if has_at email then sanitize_and_truncate (before_at email) else ""

abbrev or_else : String → String → String
or_else s t = if is_empty s then t else s

unfoldable pub choose_base : String → String → String
choose_base email full_name =
    or_else (or_else (base_from_email email) (sanitize_and_truncate full_name)) "user"

-- `maxHandleGenAttempts` and `handleSuffixDigits`
abbrev pub max_handle_gen_attempts : ℕ
max_handle_gen_attempts = 8

abbrev pub handle_suffix_digits : ℕ
handle_suffix_digits = 4

abbrev pub candidate_of : String → String → String
candidate_of base suffix = base ++ (suffix ++ "@moneymate")

-- `rand.Int(rand.Reader, big.NewInt(10))`, given the number of the call.
module _ (rand_int : ℕ → Result Error ℕ) where
  -- `randomDigits`
  unfoldable pub random_digits : ℕ → HandleCall String
  random_digits zero = pure ""
  random_digits (suc n) =
      external rand_int >>= λ d. random_digits n >>= λ rest. pure (char_at "0123456789" d ∷ rest)

  -- The attempts that are left.
  unfoldable pub try_handles : String → ℕ → HandleCall String
  try_handles base zero = raise internal
  try_handles base (suc n) =
      let rest = try_handles base n in
      random_digits handle_suffix_digits >>= λ suffix.
      map_err db_error (handle_exists (candidate_of base suffix)) >>= λ exists.
      if exists then rest else pure (candidate_of base suffix)

  -- `generateHandle`
  unfoldable pub generate_handle : String → String → HandleCall String
  generate_handle email full_name =
      try_handles (choose_base email full_name) max_handle_gen_attempts
