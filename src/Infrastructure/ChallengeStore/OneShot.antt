-- ===== src/Infrastructure/ChallengeStore/OneShot.antt =====
-- The life of a pending challenge.
use native.Mathlib.Nat.{add-zero}
use fast_stream_template.Common.{
  ℕ, Bool-cases, List, Option, String, Time, [], arith, if◌then◌else◌, inl, inr, leb, none, refl,
  seconds, some, str_eq_refl, suc, ◌+◌, ◌<◌, ◌||◌, ◌∷◌, ◌≡◌, ◌≤◌, ap, false, length, ◌∙◌,
}
use fast_stream_template.Errors.{Result, err, ok, two_factor_challenge_expired}
use fast_stream_template.Common.Dict.{lookup, lookup-insert, lookup-remove}
use fast_stream_template.Infrastructure.Cache
use fast_stream_template.Infrastructure.Cache.{is_over, read_entry, Cache}
use fast_stream_template.Infrastructure.ChallengeStore.{
  TwoFactorChallenge, Challenges, discard, read, record_failure, stored, with_failed_attempt, issue,
}

-- A wrong code counts against the challenge, if there still is one.
unfoldable pub count_wrong : String → Time → Result TwoFactorChallenge × Challenges → Challenges
count_wrong token t (ok c, store) = record_failure store token c t
count_wrong token t (err e, store) = store

-- Wrong codes at their times.
unfoldable pub wrong_codes : List Time → String → Challenges → Challenges
wrong_codes [] token store = store
wrong_codes (t ∷ ts) token store = wrong_codes ts token (count_wrong token t (read store token t))

-- What the store may hold under a token after `n` wrong codes.
abbrev Entry : ℕ → Option (TwoFactorChallenge × Option Time) → Type 0
Entry n none = Unit
Entry n (some (c, e)) = (n ≤ c.attempts) × (c.attempts < 5)

module _ (token : String) (t : Time) (store : Challenges) where
  lookup-record_failure :
      (c : TwoFactorChallenge)
      → lookup token (record_failure store token c t) ≡ (
          if leb 5 (c.attempts + 1)
          then none
          else some (stored (with_failed_attempt c), some (t + seconds 300)))
  unfolding record_failure discard Cache.set Cache.delete
  lookup-record_failure c = ground (
    arith,
    lookup-remove token token store,
    str_eq_refl token,
    lookup-insert token token (stored (with_failed_attempt c), some (t + seconds 300)) store,
  )

  lookup-wrong :
      (o : Option (TwoFactorChallenge × Option Time))
      → lookup token store ≡ o
      → lookup token (count_wrong token t (read store token t)) ≡ elim o [
        | none ↦ none
        | some (c, e) ↦
            if is_over e t || leb 5 (c.attempts + 1)
            then none
            else some (stored (with_failed_attempt c), some (t + seconds 300))
      ]
  unfolding read Cache.get count_wrong
  lookup-wrong none h = rw (h, read_entry) h
  lookup-wrong (some (c, e)) h = elim (Bool-cases (is_over e t)) [
    | inl over ↦
        rw (h, read_entry) (rw over (rw (lookup-remove token token store) (rw str_eq_refl)))
    | inr still ↦ rw (h, read_entry) (rw still (lookup-record_failure c))
  ]

  Entry-wrong :
      (n : ℕ)
      → Entry n (lookup token store)
      → Entry (suc n) (lookup token (count_wrong token t (read store token t)))
  Entry-wrong n held = step (lookup token store) refl held
    where
      step :
          (o : Option (TwoFactorChallenge × Option Time))
          → lookup token store ≡ o
          → Entry n o
          → Entry (suc n) (lookup token (count_wrong token t (read store token t)))
      step none h k = rw (lookup-wrong none h) tt
      step (some (c, e)) h k =
          rw (lookup-wrong (some (c, e)) h) (unfold stored with_failed_attempt in ground arith)

Entry-wrong_codes :
    (ts : List Time) (token : String) (store : Challenges) (n : ℕ)
    → Entry n (lookup token store)
    → Entry (n + length ts) (lookup token (wrong_codes ts token store))
unfolding wrong_codes
Entry-wrong_codes [] token store n held = rw add-zero held
Entry-wrong_codes (t ∷ ts) token store n held =
    let next = count_wrong token t (read store token t) in
    let same : suc n + length ts ≡ n + suc (length ts) = omega arith in
    rw (← same) (Entry-wrong_codes ts token next (suc n) (Entry-wrong token t store n held))

exhausted : (o : Option (TwoFactorChallenge × Option Time)) (n : ℕ) → 5 ≤ n → Entry n o → o ≡ none
exhausted none n five held = refl
exhausted (some (c, e)) n five held = absurd (omega arith)

-- Each wrong code, and the last instant, comes before the challenge's time is over, which every
-- wrong code extends.
abbrev pub Prompt : Time → List Time → Time → Type 0
Prompt from [] now = now < from + seconds 300
Prompt from (t ∷ ts) now = (t < from + seconds 300) × Prompt t ts now

-- The challenge, with the number of wrong codes.
abbrev pub with_attempts : TwoFactorChallenge → ℕ → TwoFactorChallenge
with_attempts c n = record c { attempts = n }

read_live :
    (ts : List Time) (token : String) (store : Challenges) (c : TwoFactorChallenge)
    (from now : Time)
    → lookup token store ≡ some (stored c, some (from + seconds 300))
    → Prompt from ts now
    → c.attempts + length ts < 5
    → (read (wrong_codes ts token store) token now).0
      ≡ ok (with_attempts (stored c) (c.attempts + length ts))
unfolding wrong_codes
read_live [] token store c from now h prompt few =
    unfold read Cache.get in
    rw (h, read_entry)
      (let still : leb (from + seconds 300) now ≡ false = ground arith in
        rw still (unfold stored in rw add-zero))
read_live (t ∷ ts) token store c from now h (early, prompt) few =
    let next = count_wrong token t (read store token t) in
    let still : (leb (from + seconds 300) t || leb 5 (c.attempts + 1)) ≡ false = ground arith in
    let held : lookup token next ≡ some (stored (with_failed_attempt c), some (t + seconds 300)) =
      lookup-wrong token t store (some (stored c, some (from + seconds 300))) h
      ∙ unfold stored with_failed_attempt in rw still in
    let total : c.attempts + 1 + length ts ≡ c.attempts + suc (length ts) = omega arith in
    rw (← total) (
      read_live ts token next (with_failed_attempt c) t now held prompt
        (unfold with_failed_attempt in omega arith)
      ∙ unfold with_failed_attempt stored in refl)

-- A challenge that was issued is readable after fewer than five wrong codes, each sent in time, and
-- then counts them, with the user and the interrupted login that it was issued for; after five or
-- more it is gone, whenever they were sent. A discarded challenge is gone, too.
pub challenge_lifetime :
    (store : Challenges) (c : TwoFactorChallenge) (token : String) (issued now : Time)
    (ts : List Time)
    → c.attempts ≡ 0
    → (Prompt issued ts now
        → length ts < 5
        → (read (wrong_codes ts token (issue store c token issued)) token now).0
          ≡ ok (with_attempts (stored c) (length ts)))
      × (5 ≤ length ts
          → (read (wrong_codes ts token (issue store c token issued)) token now).0
            ≡ err two_factor_challenge_expired)
      × ((read (discard store token) token now).0 ≡ err two_factor_challenge_expired)
challenge_lifetime store c token issued now ts fresh =
    let after = wrong_codes ts token (issue store c token issued) in
    let held : lookup token (issue store c token issued)
        ≡ some (stored c, some (issued + seconds 300)) =
      unfold issue Cache.set in
      lookup-insert token token (stored c, some (issued + seconds 300)) store ∙ rw str_eq_refl in
    (
      λ prompt few.
          read_live ts token (issue store c token issued) c issued now held prompt (omega arith)
          ∙ ap (λ (n : ℕ). ok (with_attempts (stored c) n)) (omega arith),
      λ five.
          let entry =
            Entry-wrong_codes ts token (issue store c token issued) 0
              (rw held (unfold stored in omega arith)) in
          gone after (exhausted (lookup token after) (0 + length ts) (omega arith) entry),
      gone (discard store token)
          (unfold discard Cache.delete in lookup-remove token token store ∙ rw str_eq_refl),
    )
  where
    gone :
        (s : Challenges)
        → lookup token s ≡ none
        → (read s token now).0 ≡ err two_factor_challenge_expired
    gone s h = unfold read Cache.get in rw (h, read_entry)
