-- ===== src/Auth/Handles/Tests.antt =====
-- A handle at single inputs (handle.go), and the theorem at them.
use Prim.Native.String.{◌++◌}
use moneymate_backend.Shared.{
  ℕ, String, ◌≡◌, refl, false, none, [], ◌∷◌, any, str_eq, if◌then◌else◌, ltb,
}
use moneymate_backend.Shared.Text.{trim_space, trim_left, trim_right}
use moneymate_backend.Shared.Action.{Env, World, Result, ok}
use moneymate_backend.Errors.{DbError, Error}
use moneymate_backend.Auth.Handles.{
  HandleDb, handle_exists, keep_alphanumeric, truncate, sanitize_and_truncate, before_at, has_at,
  base_from_email, choose_base, random_digits, try_handles, generate_handle,
}
use moneymate_backend.Auth.Handles.Generating.{IsBase, generate_handle-IsBase}

abbrev still : Env DbError
still = record { fault = λ n. none; now = λ n. n; new_uuid = λ n. n }

-- Sevens at first, then threes.
abbrev rand_int : ℕ → Result Error ℕ
rand_int n = ok (if ltb n 4 then 7 else 3)

abbrev start : World HandleDb
start = record { db = record { handles = "annlee7777@moneymate" ∷ [] }; calls = 0 }

base_of_ann : choose_base " Ann.Lee@x.org" "Ann" ≡ "annlee"
unfolding choose_base base_from_email has_at before_at sanitize_and_truncate keep_alphanumeric
    truncate trim_space
base_of_ann = refl

base_of_none : choose_base "@x.org" "-" ≡ "user"
unfolding choose_base base_from_email has_at before_at sanitize_and_truncate keep_alphanumeric
    truncate trim_space
base_of_none = refl

abbrev generation : Result Error String × World HandleDb
generation = generate_handle rand_int "ann.lee@x.org" "Ann" still start

-- The first candidate is taken.
generates : generation ≡ (ok "annlee3333@moneymate", generation.1)
unfolding generate_handle try_handles random_digits handle_exists choose_base base_from_email has_at
    before_at sanitize_and_truncate keep_alphanumeric truncate trim_space trim_left trim_right
generates = refl

generate_handle-IsBase_example :
    (any (str_eq "annlee3333@moneymate") start.db.handles ≡ false)
    × (generation.1.db ≡ start.db)
    × IsBase (choose_base "ann.lee@x.org" "Ann")
    × ((suffix : String) × ("annlee3333@moneymate"
          ≡ choose_base "ann.lee@x.org" "Ann" ++ (suffix ++ "@moneymate")))
generate_handle-IsBase_example =
    generate_handle-IsBase rand_int still "ann.lee@x.org" "Ann" "annlee3333@moneymate" start
      generation.1 generates
