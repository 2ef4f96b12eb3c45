-- ===== src/Domain/TwoFactor/Codes.antt =====
-- Backup codes are one-shot.
use fast_stream_template.Domain.Ports.{Crypto}
use fast_stream_template.Domain.Tokens.{TokenHash, from_raw}
use fast_stream_template.Domain.TwoFactor.{
  TwoFactorSecret, create, consume_from, consume_backup_code, remaining_backup_codes,
}
use fast_stream_template.Common.{
  ◌<◌, String, ◌≡◌, refl, ap, ◌∙◌, inl, inr, Bool, true, false, not, ◌&&◌, none, some, List, [],
  ◌∷◌, map, arith, str_eq, str_eq_iff, str_eq_refl, if◌then◌else◌, Bool-cases, is_some, length, any,
  keep, length-keep-le, length-map,
}

-- Whether a hash is among the stored ones.
abbrev pub holds : TokenHash → List TokenHash → Bool
holds h hashes = any (λ stored. str_eq stored h) hashes

holds-keep :
    (h stored : TokenHash) (hashes : List TokenHash)
    → holds h (keep (λ held. not (str_eq held stored)) hashes)
      ≡ (holds h hashes && not (str_eq h stored))
holds-keep h stored [] = refl
holds-keep h stored (x ∷ xs) =
    ground (arith, holds-keep h stored xs, str_eq_iff x h, str_eq_iff x stored, str_eq_iff h stored)

-- What the loop returns: nothing without a match, else the secret less the hash of the code.
consume_from_lem :
    (s : TwoFactorSecret) (candidate : TokenHash) (hashes : List TokenHash)
    → consume_from s candidate hashes ≡ (
        if holds candidate hashes
        then some (record s {
          backup_code_hashes = keep (λ held. not (str_eq held candidate)) s.backup_code_hashes;
        })
        else none)
unfolding consume_from
consume_from_lem s candidate [] = refl
consume_from_lem s candidate (x ∷ xs) = elim (Bool-cases (str_eq x candidate)) [
  | inl same ↦ rw ((str_eq_iff x candidate).0 same, str_eq_refl)
  | inr other ↦ rw other (consume_from_lem s candidate xs)
]

module _ (crypto : Crypto) (s : TwoFactorSecret) where
  accepted_iff_held :
      (code : String)
      → is_some (consume_backup_code crypto s code)
        ≡ holds (from_raw crypto code) s.backup_code_hashes
  unfolding consume_backup_code
  accepted_iff_held code =
      rw (consume_from_lem s (from_raw crypto code) s.backup_code_hashes) (ground arith)

  -- What a successful `consume_backup_code` returns.
  pub consumed_lem :
      (code : String) {s' : TwoFactorSecret}
      → consume_backup_code crypto s code ≡ some s'
      → (holds (from_raw crypto code) s.backup_code_hashes ≡ true)
        × (s' ≡ record s {
          backup_code_hashes =
              keep (λ held. not (str_eq held (from_raw crypto code))) s.backup_code_hashes;
        })
  unfolding consume_backup_code
  consumed_lem code h =
      ground (arith, consume_from_lem s (from_raw crypto code) s.backup_code_hashes)

length-keep-held :
    (h : TokenHash) (hashes : List TokenHash)
    → holds h hashes ≡ true
    → length (keep (λ held. not (str_eq held h)) hashes) < length hashes
length-keep-held h [] held = cc
length-keep-held h (x ∷ xs) held =
    ground (arith, length-keep-held h xs, length-keep-le (λ held. not (str_eq held h)) xs)

-- A backup code that is accepted was held, is refused from then on, leaves the acceptance of every
-- code with another digest as it was, and leaves fewer codes; the seed and the time of activation
-- stay the same.
pub consume_backup_code-one_shot :
    (crypto : Crypto) (s s' : TwoFactorSecret) (code : String)
    → consume_backup_code crypto s code ≡ some s'
    → (is_some (consume_backup_code crypto s' code) ≡ false)
      × ((other : String)
          → is_some (consume_backup_code crypto s' other) ≡ (
              is_some (consume_backup_code crypto s other)
              && not (str_eq (from_raw crypto other) (from_raw crypto code))))
      × (remaining_backup_codes s' < remaining_backup_codes s)
      × (s'.secret ≡ s.secret)
      × (s'.enabled_at ≡ s.enabled_at)
unfolding remaining_backup_codes
consume_backup_code-one_shot crypto s s' code h =
    let digest = from_raw crypto code in
    let (held, result) = consumed_lem crypto s code h in
    let left = λ (c : String).
      accepted_iff_held crypto s' c
      ∙ ap (λ (t : TwoFactorSecret). holds (from_raw crypto c) t.backup_code_hashes) result
      ∙ holds-keep (from_raw crypto c) digest s.backup_code_hashes in
    (
      ground (arith, left code, str_eq_refl digest),
      λ other. ground (arith, left other, accepted_iff_held crypto s other),
      rw result (length-keep-held digest s.backup_code_hashes held),
      ap (λ (t : TwoFactorSecret). t.secret) result,
      ap (λ (t : TwoFactorSecret). t.enabled_at) result,
    )

holds-map :
    (crypto : Crypto) (code : String) (codes : List String)
    → any (λ c. str_eq c code) codes ≡ true
    → holds (from_raw crypto code) (map (from_raw crypto) codes) ≡ true
holds-map crypto code [] h = cc
holds-map crypto code (c ∷ cs) h = elim (Bool-cases (str_eq c code)) [
  | inl same ↦ rw ((str_eq_iff c code).0 same, str_eq_refl)
  | inr other ↦ ground (arith, holds-map crypto code cs)
]

-- Every backup code that enrolment returned is accepted by the new enrolment, which is not active
-- and holds as many hashes as codes were drawn.
pub issued_codes_accepted :
    (crypto : Crypto) (secret code : String) (codes : List String)
    → any (λ c. str_eq c code) (create crypto secret codes).1 ≡ true
    → (is_some (consume_backup_code crypto (create crypto secret codes).0 code) ≡ true)
      × (remaining_backup_codes (create crypto secret codes).0 ≡ length codes)
      × ((create crypto secret codes).0.enabled_at ≡ none)
unfolding create remaining_backup_codes
issued_codes_accepted crypto secret code codes issued = (
  accepted_iff_held crypto (create crypto secret codes).0 code ∙ holds-map crypto code codes issued,
  length-map (from_raw crypto) codes,
  refl,
)
