-- ===== src/Domain/Session/Rotation.antt =====
-- Revocation and the rotation of refresh tokens.
use fast_stream_template.Common.{
  ℕ, ◌+◌, ◌≡◌, refl, ◌≢◌, false, none, some, List, [], ◌∷◌, ◌++◌, map, arith, str_eq_iff, ltb,
  is_some, Time, seconds, Uuid, All,
}
use fast_stream_template.Domain.Tokens.{TokenHash}
use fast_stream_template.Domain.Session.{
  RefreshToken, SessionAggregate, token_is_valid, revoked, find_token, find_refresh_token,
  find_valid_refresh_token, revoke, is_valid, revoke_token, revoke_by_id, add_refresh_token,
  refresh, new_refresh_token, only_valid,
}

-- No token of the list is valid at any time.
no_valid_revoked :
    (tokens : List RefreshToken) (h : TokenHash) (now : Time)
    → only_valid (find_token h (map revoked tokens)) now ≡ none
unfolding find_token revoked only_valid
no_valid_revoked [] h now = refl
no_valid_revoked (t ∷ ts) h now = ground (arith, no_valid_revoked ts h now)

-- A revoked session is not valid and none of its refresh tokens is accepted, at any time; its id
-- and its user stay.
pub revoke-invalidates :
    (s : SessionAggregate) (h : TokenHash) (now : Time)
    → (is_valid (revoke s) now ≡ false)
      × (find_valid_refresh_token (revoke s) h now ≡ none)
      × ((revoke s).session_id ≡ s.session_id)
      × ((revoke s).user_id ≡ s.user_id)
unfolding revoke is_valid find_valid_refresh_token
revoke-invalidates s h now = (refl, no_valid_revoked s.refresh_tokens h now, refl, refl)

-- The rotation of UserService.refresh_session: the presented token is revoked and a new one added.
unfoldable pub rotate : SessionAggregate → RefreshToken → RefreshToken → ℕ → Time → SessionAggregate
unfolding revoke_token add_refresh_token refresh
rotate s presented next new_expire_seconds now =
    refresh (add_refresh_token (revoke_token s presented.id) next) new_expire_seconds now

-- No token of the list carries the hash.
abbrev pub Unheld : TokenHash → List RefreshToken → Type 0
Unheld h tokens = All (λ t. t.token_hash ≢ h) tokens

-- Revoking the token that was found leaves it findable, and revoked.
find_token-revoke_by_id :
    (tokens : List RefreshToken) (h : TokenHash) (next presented : RefreshToken)
    → find_token h tokens ≡ some presented
    → find_token h (map (revoke_by_id presented.id) tokens ++ next ∷ []) ≡ some (revoked presented)
unfolding find_token revoke_by_id
find_token-revoke_by_id [] h next presented found = cc
find_token-revoke_by_id (t ∷ ts) h next presented found =
    ground (arith, find_token-revoke_by_id ts h next presented)

find_token-new :
    (tokens : List RefreshToken) (h : TokenHash) (id : Uuid) (next : RefreshToken)
    → Unheld h tokens
    → next.token_hash ≡ h
    → find_token h (map (revoke_by_id id) tokens ++ next ∷ []) ≡ some next
unfolding find_token revoke_by_id revoked
find_token-new [] h id next un same = ground (arith, str_eq_iff next.token_hash h)
find_token-new (t ∷ ts) h id next (ne, un) same =
    ground (arith, str_eq_iff t.token_hash h, find_token-new ts h id next un same)

-- After a rotation, whose new token has a hash that the session did not hold: the presented token
-- is still found and is revoked, so it is not accepted again at any time; the new token is accepted
-- exactly until it expires; and the session expires the given number of seconds later.
pub rotate_lem :
    (s : SessionAggregate) (h fresh : TokenHash) (presented : RefreshToken) (id : Uuid)
    (expires_at : Time) (secs : ℕ) (now later : Time)
    → find_refresh_token s h ≡ some presented
    → Unheld fresh s.refresh_tokens
    → let s' = rotate s presented (new_refresh_token fresh id expires_at now) secs now in
      (find_refresh_token s' h ≡ some (revoked presented))
      × (find_valid_refresh_token s' h later ≡ none)
      × (is_some (find_valid_refresh_token s' fresh later) ≡ ltb later expires_at)
      × (s'.expires_at ≡ now + seconds secs)
unfolding rotate find_refresh_token find_valid_refresh_token
rotate_lem s h fresh presented id expires_at secs now later found un =
    let next = new_refresh_token fresh id expires_at now in
    let old = find_token-revoke_by_id s.refresh_tokens h next presented found in
    let new =
      find_token-new s.refresh_tokens fresh presented.id next un
        (unfold new_refresh_token in refl) in
    (
      old,
      rw old (unfold revoked token_is_valid in refl),
      rw new (unfold new_refresh_token token_is_valid in ground arith),
      refl,
    )
