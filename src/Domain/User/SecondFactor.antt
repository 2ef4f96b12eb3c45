-- ===== src/Domain/User/SecondFactor.antt =====
-- Enrolment and use of the second factor.
use fast_stream_template.Common.{
  String, ◌≡◌, refl, sym, ap, ◌∙◌, Bool, true, false, Option, none, some, List, arith, is_some,
  Time, keep, not, str_eq,
}
use fast_stream_template.Errors.{invalid_credentials, ok, err}
use fast_stream_template.Domain.Ports.{Crypto}
use fast_stream_template.Domain.Tokens.{from_raw}
use fast_stream_template.Domain.TwoFactor
use fast_stream_template.Domain.TwoFactor.{TwoFactorSecret}
use fast_stream_template.Domain.TwoFactor.Codes.{consume_backup_code-one_shot, consumed_lem, holds}
use fast_stream_template.Domain.User.{
  User, has_two_factor, verify_two_factor, begin_two_factor_enrolment, confirm_two_factor, activate,
  spend,
}

-- An account without an active second factor accepts no code and is left as it is.
pub verify_needs_active :
    (crypto : Crypto) (u : User) (code : String) (now : Time)
    → has_two_factor u ≡ false
    → verify_two_factor crypto u code now ≡ (false, u)
unfolding has_two_factor verify_two_factor
verify_needs_active crypto u code now off = ground arith

-- A new enrolment is not active until a code of the new seed confirms it: until then no code is
-- accepted, whatever was active before; confirmation succeeds exactly for a right code, and the
-- factor is then active with the new seed.
pub enrolment_confirmed :
    (crypto : Crypto) (u : User) (seed code : String) (codes : List String) (now : Time)
    → let pending = (begin_two_factor_enrolment crypto u seed codes).0 in
      (has_two_factor pending ≡ false)
      × ((any_code : String) (t : Time)
          → verify_two_factor crypto pending any_code t ≡ (false, pending))
      × (crypto.verify_code now seed code ≡ false
          → confirm_two_factor crypto pending code now ≡ err invalid_credentials)
      × (crypto.verify_code now seed code ≡ true
          → (u' : User) × (confirm_two_factor crypto pending code now ≡ ok u')
            × (has_two_factor u' ≡ true)
            × ((t : Time) (c : String)
                → crypto.verify_code t seed c ≡ true
                → verify_two_factor crypto u' c t ≡ (true, u')))
unfolding begin_two_factor_enrolment has_two_factor verify_two_factor confirm_two_factor
    TwoFactor.create TwoFactor.enable
enrolment_confirmed crypto u seed code codes now = (
  refl,
  λ any_code t. refl,
  λ wrong. rw wrong,
  λ right. (
    activate (begin_two_factor_enrolment crypto u seed codes).0
        (TwoFactor.create crypto seed codes).0 now,
    rw right,
    refl,
    λ t c h. rw h,
  ),
)

spend-eq-true :
    (u u' : User) (o : Option TwoFactorSecret)
    → spend u o ≡ (true, u')
    → (s : TwoFactorSecret) × (o ≡ some s) × (u' ≡ record u { two_factor_secret = some s })
spend-eq-true u u' none h = absurd (cc (ap (λ (p : Bool × User). p.0) h))
spend-eq-true u u' (some s) h = (s, refl, sym (ap (λ (p : Bool × User). p.1) h))

verify_enabled :
    (crypto : Crypto) (u : User) (s : TwoFactorSecret) (t : Time) (code : String) (now : Time)
    → u.two_factor_secret ≡ some s
    → s.enabled_at ≡ some t
    → crypto.verify_code now s.secret code ≡ false
    → verify_two_factor crypto u code now ≡ spend u (TwoFactor.consume_backup_code crypto s code)
unfolding verify_two_factor
verify_enabled crypto u s t code now held on wrong = rw held (rw on (rw wrong))

-- A code that is accepted although it is no TOTP code of the seed was a backup code, and it is spent:
-- its digest was among the stored ones, the account keeps its second factor less that digest and
-- nothing else, and refuses the code whenever it is no TOTP code either.
pub backup_code_spent :
    (crypto : Crypto) (u u' : User) (s : TwoFactorSecret) (t : Time) (code : String)
    (now later : Time)
    → u.two_factor_secret ≡ some s
    → s.enabled_at ≡ some t
    → crypto.verify_code now s.secret code ≡ false
    → crypto.verify_code later s.secret code ≡ false
    → verify_two_factor crypto u code now ≡ (true, u')
    → (holds (from_raw crypto code) s.backup_code_hashes ≡ true)
      × (u' ≡ record u {
        two_factor_secret = some (record s {
          backup_code_hashes =
              keep (λ h. not (str_eq h (from_raw crypto code))) s.backup_code_hashes;
        });
      })
      × (has_two_factor u' ≡ true)
      × (verify_two_factor crypto u' code later ≡ (false, u'))
unfolding has_two_factor
backup_code_spent crypto u u' s t code now later held on wrong wrong_later accepted =
    let (s', consumed, result) =
      spend-eq-true u u' (TwoFactor.consume_backup_code crypto s code)
        (sym (verify_enabled crypto u s t code now held on wrong) ∙ accepted) in
    let (refused, _, _, seed, kept) = consume_backup_code-one_shot crypto s s' code consumed in
    let (was_held, left) = consumed_lem crypto s code consumed in
    let held' : u'.two_factor_secret ≡ some s' = ap (λ (v : User). v.two_factor_secret) result in
    let on' : s'.enabled_at ≡ some t = kept ∙ on in
    (
      was_held,
      result ∙ ap (λ (x : TwoFactorSecret). record u { two_factor_secret = some x }) left,
      rw held' (rw on'),
      verify_enabled crypto u' s' t code later held' on' (rw seed wrong_later)
          ∙ spend_none u' (TwoFactor.consume_backup_code crypto s' code) refused,
    )
  where
    spend_none :
        (v : User) (o : Option TwoFactorSecret) → is_some o ≡ false → spend v o ≡ (false, v)
    spend_none v none h = refl
    spend_none v (some x) h = cc
