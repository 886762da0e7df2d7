-- ===== src/Auth/Sessions/Spending.antt =====
-- Refresh tokens that are revoked, and what keeps them so (refresh_tokens.sql.go).
use moneymate_backend.Shared.{
  String, ◌≡◌, refl, ap, ◌∙◌, arith, inl, inr, Bool, true, some, List, [], ◌∷◌, Bool-cases, find?,
  is_some, eq_iff, if◌then◌else◌,
}
use moneymate_backend.Shared.Action.{ok}
use moneymate_backend.Auth.Pins.{Time}
use moneymate_backend.Auth.Sessions.Store.{
  RefreshToken, SessionDb, has_hash, revoked, revoke_where, with_tokens, insert_token_row,
}

-- The row of a token's hash is there, and is revoked.
pub record Spent (h : String) (d : SessionDb) : Type 0 where
  pub row : RefreshToken
  pub row_found : find? (has_hash h) d.refresh_tokens ≡ some row
  pub is_revoked : is_some row.revoked_at ≡ true

-- A revocation leaves each row, or revokes it.
pub revoked_found :
    (h : String) (p : RefreshToken → Bool) (now : Time) (rows : List RefreshToken)
    (t : RefreshToken)
    → find? (has_hash h) rows ≡ some t
    → find? (has_hash h) (revoke_where p now rows) ≡ some (if p t then revoked now t else t)
unfolding revoke_where
revoked_found h p now [] t e = ground arith
revoked_found h p now (x ∷ rows) t e = ground (arith, revoked_found h p now rows t)

module _ (h : String) where
  pub kept-Spent :
      (d d' : SessionDb) → d'.refresh_tokens ≡ d.refresh_tokens → Spent h d → Spent h d'
  kept-Spent d d' e s = record {
    row = s.row;
    row_found = ap (find? (has_hash h)) e ∙ s.row_found;
    is_revoked = s.is_revoked;
  }

  pub revoked-Spent :
      (p : RefreshToken → Bool) (now : Time) (d : SessionDb)
      → Spent h d
      → Spent h (with_tokens (revoke_where p now d.refresh_tokens) d)
  revoked-Spent p now d s = record {
    row = if p s.row then revoked now s.row else s.row;
    row_found = revoked_found h p now d.refresh_tokens s.row s.row_found;
    is_revoked = elim (Bool-cases (p s.row)) [ inl y ↦ rw y refl | inr n ↦ rw n s.is_revoked ];
  }

  -- A row with this hash cannot be inserted again.
  pub inserted-Spent :
      (t : RefreshToken) (d d' : SessionDb)
      → insert_token_row t d ≡ ok (tt, d')
      → Spent h d
      → Spent h d'
  unfolding insert_token_row
  inserted-Spent t d d' e s =
      let row_found = s.row_found in
      elim (Bool-cases (has_hash h t)) [
        | inl y ↦
            let same : t.token_hash ≡ h = (eq_iff t.token_hash h).0 y in
            let taken : find? (has_hash t.token_hash) d.refresh_tokens ≡ some s.row =
              ap (λ x. find? (has_hash x) d.refresh_tokens) same ∙ row_found in
            absurd (ground arith)
        | inr n ↦ record { row = s.row; row_found = ground (arith, n); is_revoked = s.is_revoked }
      ]
