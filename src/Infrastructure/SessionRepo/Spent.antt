-- ===== src/Infrastructure/SessionRepo/Spent.antt =====
-- What `update` leaves of the rows of one token hash, when the session it is given has revoked
-- that token.
use fast_stream_template.Common.{
  Bool, Bool-cases, List, Uuid, [], all, any, arith, false, inl, inr, map, none, not, refl, str_eq,
  true, ◌&&◌, ◌++◌, ◌==◌, ◌||◌, ◌∷◌, ◌≡◌,
}
use fast_stream_template.Domain.Tokens.{TokenHash}
use fast_stream_template.Domain.Session.{RefreshToken, revoke_by_id, revoked}
use fast_stream_template.Infrastructure.SessionRepo.{
  TokenRow, find_live_token, overwrite, refresh_token_from_row, token_row, tokens_of, upsert,
  upsert_all,
}

-- Only the token `id` has the hash.
abbrev pub owned : TokenHash → Uuid → TokenRow → Bool
owned h id r = not (str_eq r.token_hash h) || r.id == id

abbrev pub spent : TokenHash → TokenRow → Bool
spent h r = not (str_eq r.token_hash h) || r.is_revoked

-- A token that `update` may write: the token `id` if it is revoked, any other with another hash
abbrev pub harmless : TokenHash → Uuid → RefreshToken → Bool
harmless h id t = (not (t.id == id) || t.is_revoked) && (not (str_eq t.token_hash h) || t.id == id)

module _ {ℓ} {A : Type ℓ} where
  pub all-append_two : (p : A → Bool) (xs ys : List A) → all p (xs ++ ys) ≡ (all p xs && all p ys)
  all-append_two p [] ys = refl
  all-append_two p (x ∷ xs) ys = ground (arith, all-append_two p xs ys)

  pub any-append_two : (p : A → Bool) (xs ys : List A) → any p (xs ++ ys) ≡ (any p xs || any p ys)
  any-append_two p [] ys = refl
  any-append_two p (x ∷ xs) ys = ground (arith, any-append_two p xs ys)

module _ (h : TokenHash) (id : Uuid) where
  owned-overwrite :
      (t : RefreshToken) (rows : List TokenRow)
      → all (owned h id) (map (overwrite t) rows) ≡ all (owned h id) rows
  unfolding overwrite
  owned-overwrite t [] = refl
  owned-overwrite t (r ∷ rs) = ground (arith, owned-overwrite t rs)

  owned-upsert :
      (s : Uuid) (t : RefreshToken) (rows : List TokenRow)
      → harmless h id t ≡ true
      → all (owned h id) rows ≡ true
      → all (owned h id) (upsert s t rows) ≡ true
  unfolding upsert
  owned-upsert s t rows safe own =
      ground (arith, owned-overwrite t rows, all-append_two (owned h id) rows (token_row s t ∷ []))

  spent-overwrite :
      (t : RefreshToken) (rows : List TokenRow)
      → harmless h id t ≡ true
      → all (owned h id) rows ≡ true
      → all (spent h) rows || t.id == id ≡ true
      → all (spent h) (map (overwrite t) rows) ≡ true
  unfolding overwrite
  spent-overwrite t [] safe own s = refl
  spent-overwrite t (r ∷ rs) safe own s = ground (arith, spent-overwrite t rs)

  no_id :
      (rows : List TokenRow) (t : RefreshToken)
      → harmless h id t ≡ true
      → all (owned h id) rows ≡ true
      → any (λ (r : TokenRow). r.id == t.id) rows ≡ false
      → all (spent h) rows || t.id == id ≡ true
      → all (spent h) rows ≡ true
  no_id [] t safe own none_has s = refl
  no_id (r ∷ rs) t safe own none_has s = ground (arith, no_id rs t)

  -- After the row of a revoked token was written, or that of another token where all were spent
  -- before, the rows with the hash are spent.
  spent-upsert :
      (s : Uuid) (t : RefreshToken) (rows : List TokenRow)
      → harmless h id t ≡ true
      → all (owned h id) rows ≡ true
      → all (spent h) rows || t.id == id ≡ true
      → all (spent h) (upsert s t rows) ≡ true
  unfolding upsert
  spent-upsert s t rows safe own sp =
      elim (Bool-cases (any (λ (r : TokenRow). r.id == t.id) rows)) [
        | inl e ↦ rw e (spent-overwrite t rows safe own sp)
        | inr e ↦ rw e (
            ground (
              arith,
              no_id rows t safe own e sp,
              all-append_two (spent h) rows (token_row s t ∷ []),
            ))
      ]

  pub spent-upsert_all :
      (s : Uuid) (ts : List RefreshToken) (rows : List TokenRow)
      → all (harmless h id) ts ≡ true
      → all (owned h id) rows ≡ true
      → all (spent h) rows || any (λ t. t.id == id) ts ≡ true
      → all (spent h) (upsert_all s ts rows) ≡ true
  unfolding upsert_all
  spent-upsert_all s [] rows safe own sp = ground arith
  spent-upsert_all s (t ∷ ts) rows safe own sp =
      ground (
        arith,
        spent-upsert_all s ts (upsert s t rows),
        owned-upsert s t rows,
        spent-upsert s t rows,
      )

  -- No row of a spent hash is found.
  pub find_live_token-spent :
      (rows : List TokenRow) → all (spent h) rows ≡ true → find_live_token h rows ≡ none
  unfolding find_live_token
  find_live_token-spent [] s = refl
  find_live_token-spent (r ∷ rs) s = ground (arith, find_live_token-spent rs)

  -- The tokens of any session, with the token `id` revoked, are harmless.
  pub harmless-revoke_by_id :
      (s : Uuid) (rows : List TokenRow)
      → all (owned h id) rows ≡ true
      → all (harmless h id) (map (revoke_by_id id) (tokens_of s rows)) ≡ true
  unfolding revoke_by_id tokens_of revoked refresh_token_from_row
  harmless-revoke_by_id s [] own = refl
  harmless-revoke_by_id s (r ∷ rs) own = ground (arith, harmless-revoke_by_id s rs)
