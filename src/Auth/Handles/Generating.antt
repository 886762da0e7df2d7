-- ===== src/Auth/Handles/Generating.antt =====
-- What a handle that was generated looks like, and that it was free (handle.go).
use Prim.Native.String.{[], ◌∷◌, ◌++◌, count}
use Prim.Native.String.count.{nil as count_nil, cons as count_cons}
use moneymate_backend.Shared.{
  ap, sym, subst, ◌∙◌, ℕ, zero, suc, ◌≤◌, String, Bool, true, false, ◌≡◌, inl, inr, refl, arith,
  any, str_eq, Bool-cases, if◌then◌else◌,
}
use moneymate_backend.Shared.Text.{trim_space, is_empty}
use moneymate_backend.Shared.Action.{
  Env, World, Result, ok, bind-ok, Reads, bind-Reads, pure-Reads, map_err, ◌>>=◌, pure,
}
use moneymate_backend.Errors.{DbError, Error, db_error}
use moneymate_backend.Auth.Handles.{
  HandleDb, HandleCall, handle_exists, lower_char, is_alphanumeric, keep_alphanumeric, truncate,
  sanitize_and_truncate, before_at, has_at, base_from_email, choose_base, handle_suffix_digits,
  max_handle_gen_attempts, random_digits, candidate_of, try_handles, generate_handle,
}

-- Only characters of `[a-z0-9]`.
abbrev pub IsPlain : String → Type 0
IsPlain [] = Unit
IsPlain (c ∷ s) = (is_alphanumeric c ≡ true) × IsPlain s

keep_alphanumeric-IsPlain : (s : String) → IsPlain (keep_alphanumeric s)
unfolding keep_alphanumeric
keep_alphanumeric-IsPlain [] = tt
keep_alphanumeric-IsPlain (c ∷ s) = elim (Bool-cases (is_alphanumeric (lower_char c))) [
  | inl y ↦ rw y (y, keep_alphanumeric-IsPlain s)
  | inr n ↦ rw n (keep_alphanumeric-IsPlain s)
]

truncate-IsPlain : (n : ℕ) (s : String) → IsPlain s → IsPlain (truncate n s)
unfolding truncate
truncate-IsPlain zero s h = tt
truncate-IsPlain (suc n) [] h = tt
truncate-IsPlain (suc n) (c ∷ s) h = (h.0, truncate-IsPlain n s h.1)

count-truncate : (n : ℕ) (s : String) → count (truncate n s) ≤ n
unfolding truncate
count-truncate zero s = ground (arith, count_nil)
count-truncate (suc n) [] = ground (arith, count_nil)
count-truncate (suc n) (c ∷ s) = ground (arith, count-truncate n s, count_cons c (truncate n s))

-- A first part: at most fifteen characters of `[a-z0-9]`, and at least one.
pub record IsBase (s : String) : Type 0 where
  pub plain : IsPlain s
  pub short : count s ≤ 15
  pub has_some : is_empty s ≡ false

-- As `IsBase`, or empty.
abbrev IsLoose : String → Type 0
IsLoose s = IsPlain s × (count s ≤ 15)

sanitize_and_truncate-IsLoose : (s : String) → IsLoose (sanitize_and_truncate s)
unfolding sanitize_and_truncate
sanitize_and_truncate-IsLoose s =
    let kept = keep_alphanumeric (trim_space s) in
    (truncate-IsPlain 15 kept (keep_alphanumeric-IsPlain (trim_space s)), count-truncate 15 kept)

base_from_email-IsLoose : (email : String) → IsLoose (base_from_email email)
unfolding base_from_email
base_from_email-IsLoose email = elim (Bool-cases (has_at email)) [
  | inl y ↦ rw y (sanitize_and_truncate-IsLoose (before_at email))
  | inr n ↦ rw n (tt, ground arith)
]

choose_base-IsBase : (email full_name : String) → IsBase (choose_base email full_name)
unfolding choose_base
choose_base-IsBase email full_name =
    let first = base_from_email-IsLoose email in
    let second = sanitize_and_truncate-IsLoose full_name in
    elim (Bool-cases (is_empty (base_from_email email))) [
      | inr n ↦ rw (n, n) (record { plain = first.0; short = first.1; has_some = n })
      | inl y ↦ elim (Bool-cases (is_empty (sanitize_and_truncate full_name))) [
        | inr n ↦ rw (y, n) (record { plain = second.0; short = second.1; has_some = n })
        | inl e ↦
            rw (y, e)
              (record {
                plain = (refl, (refl, (refl, (refl, tt))));
                short = ground arith;
                has_some = refl;
              })
      ]
    ]

handle_exists-ok :
    (text : String) (env : Env DbError) (w w' : World HandleDb) (there : Bool)
    → map_err db_error (handle_exists text) env w ≡ (ok there, w')
    → (there ≡ any (str_eq text) w.db.handles) × (w'.db ≡ w.db)
unfolding handle_exists
handle_exists-ok text env w w' there h = (ground arith, ground arith)

module _ (rand_int : ℕ → Result Error ℕ) (env : Env DbError) where
  random_digits-Reads : (n : ℕ) → Reads (random_digits rand_int n)
  unfolding random_digits
  random_digits-Reads zero = pure-Reads ""
  random_digits-Reads (suc n) =
      bind-Reads (record { keeps = λ env w. refl })
        λ d. bind-Reads (random_digits-Reads n) λ rest. pure-Reads _

  abbrev answer : String → ℕ → String → Bool → HandleCall String
  answer base n suffix there =
      if there then try_handles rand_int base n else pure (candidate_of base suffix)

  abbrev ask : String → ℕ → String → HandleCall String
  ask base n suffix =
      map_err db_error (handle_exists (candidate_of base suffix)) >>= answer base n suffix

  try_handles-ok :
      (base : String) (n : ℕ) (w w' : World HandleDb) (h : String)
      → try_handles rand_int base n env w ≡ (ok h, w')
      → (any (str_eq h) w.db.handles ≡ false)
        × (w'.db ≡ w.db)
        × ((suffix : String) × (h ≡ candidate_of base suffix))
  unfolding try_handles
  try_handles-ok base zero w w' h e = absurd (ground arith)
  try_handles-ok base (suc n) w w' h e =
      let (suffix, w₁, drawn, rest) =
        bind-ok (random_digits rand_int handle_suffix_digits) (ask base n) env w e in
      let (there, w₂, asked, rest₂) =
        bind-ok (map_err db_error (handle_exists (candidate_of base suffix))) (answer base n suffix)
          env w₁ rest in
      let (known, kept) = handle_exists-ok (candidate_of base suffix) env w₁ w₂ there asked in
      let same₁ : w₁.db ≡ w.db =
        ap (λ x. World.db x.1) (sym drawn)
        ∙ (random_digits-Reads handle_suffix_digits).keeps env w in
      let same : w₂.db ≡ w.db = kept ∙ same₁ in
      elim (Bool-cases there) [
        | inl y ↦
            let (free, still, shape) =
              try_handles-ok base n w₂ w' h
                (subst (λ b. answer base n suffix b env w₂ ≡ (ok h, w')) y rest₂) in
            (
              subst (λ d. any (str_eq h) (HandleDb.handles d) ≡ false) same free,
              still ∙ same,
              shape,
            )
        | inr f ↦
            let done : answer base n suffix false env w₂ ≡ (ok h, w') =
              subst (λ b. answer base n suffix b env w₂ ≡ (ok h, w')) f rest₂ in
            let is_h : candidate_of base suffix ≡ h = ground arith in
            (
              subst (λ t. any (str_eq t) w.db.handles ≡ false) is_h
                  (subst (λ d. any (str_eq (candidate_of base suffix)) (HandleDb.handles d) ≡ false)
                    same₁ (sym known ∙ f)),
              ap (λ x. World.db x.1) (sym done) ∙ same,
              (suffix, sym is_h),
            )
      ]

  -- A handle that is generated is no user's yet, and is written as a first part of one to fifteen
  -- characters of `[a-z0-9]`, which the address or the name gives, a second part, and `@moneymate`;
  -- the store is as it was.
  pub generate_handle-IsBase :
      (email full_name h : String) (w w' : World HandleDb)
      → generate_handle rand_int email full_name env w ≡ (ok h, w')
      → (any (str_eq h) w.db.handles ≡ false)
        × (w'.db ≡ w.db)
        × IsBase (choose_base email full_name)
        × ((suffix : String) × (h ≡ choose_base email full_name ++ (suffix ++ "@moneymate")))
  unfolding generate_handle
  generate_handle-IsBase email full_name h w w' e =
      let (free, same, shape) =
        try_handles-ok (choose_base email full_name) max_handle_gen_attempts w w' h e in
      (free, same, choose_base-IsBase email full_name, shape)
