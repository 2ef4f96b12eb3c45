-- ===== src/Application/LoginUseCase/Factors.antt =====
-- What a login needs before it gives out anything.
use fast_stream_template.Infrastructure.SessionRepo.{SessionTables}
use fast_stream_template.Infrastructure.ChallengeStore.{Challenges}
use fast_stream_template.Infrastructure.Cache.{get-set}
use fast_stream_template.Common.{
  Bool-cases, String, ap, arith, false, inl, inr, none, some, sym, true, ◌≡◌, if◌then◌else◌, ◌∙◌,
}
use fast_stream_template.Errors.{Result, ok}
use fast_stream_template.Domain.Ports.{Crypto}
use fast_stream_template.Domain.User
use fast_stream_template.Domain.User.{User}
use fast_stream_template.Domain.Names.{CharClasses}
use fast_stream_template.Domain.Session.{SessionAggregate, DeviceInfo, device_of}
use fast_stream_template.Infrastructure.RateLimiter.{RateLimitConfig}
use fast_stream_template.Infrastructure.ChallengeStore
use fast_stream_template.Infrastructure.SessionRepo
use fast_stream_template.Application.UnitOfWork.{Database, Work, begin}
use fast_stream_template.Application.Login.{
  System, Draws, LoginInput, build_session, authenticate, attempt_key, find_identified,
}
use fast_stream_template.Application.LoginUseCase.{
  LoginOutput, gate, demand_second_factor, forgive, open_session, login, pending_challenge,
}
use fast_stream_template.Application.LoginUseCase.Branches.{
  attempt_lem, account_lem, authenticate_user_lem, finish_lem, for_found_lem, gate_db,
}

module _ (draws : Draws) (input : LoginInput) (u : User) (w : Work) (sys sys' : System)
    (out : LoginOutput) where
  demanded :
      demand_second_factor draws input u w sys ≡ (ok out, sys')
      → (out.user_id ≡ u.id)
        × (out.requires_two_factor ≡ true)
        × (out.session_id ≡ none)
        × (out.refresh_token ≡ none)
        × (out.challenge_token ≡ some draws.challenge_token)
        × (sys'.db.sessions ≡ w.db.sessions)
        × ((ChallengeStore.read sys'.challenges draws.challenge_token draws.now).0
            ≡ ok (ChallengeStore.stored (pending_challenge draws input u)))
  unfolding demand_second_factor
  demanded h =
      let left : Result LoginOutput × System = demand_second_factor draws input u w sys in
      let store : Challenges =
        ChallengeStore.issue sys.challenges (pending_challenge draws input u) draws.challenge_token
          draws.now in
      let kept : store ≡ sys'.challenges =
        ap (λ (r : Result LoginOutput × System). r.1.challenges) h in
      (
        cc h,
        cc h,
        cc h,
        cc h,
        cc h,
        sym (ap (λ (r : Result LoginOutput × System). r.1.db.sessions) h),
        rw (sym kept) (
            unfold ChallengeStore.read ChallengeStore.issue in
            (rw
              ((get-set sys.challenges draws.challenge_token draws.challenge_token
                (ChallengeStore.stored (pending_challenge draws input u)) 300 draws.now
                draws.now).0)
              (ground arith))),
      )

  opened :
      (s : SessionAggregate) (raw : String)
      → open_session draws input u s raw w sys ≡ (ok out, sys')
      → (out.user_id ≡ u.id)
        × (out.requires_two_factor ≡ false)
        × (out.session_id ≡ some s.session_id)
        × (out.refresh_token ≡ some raw)
        × (out.challenge_token ≡ none)
        × (sys'.db.sessions ≡ SessionRepo.add s w.db.sessions)
  unfolding open_session
  opened s raw h = (
    cc h,
    cc h,
    cc h,
    cc h,
    cc h,
    sym (ap (λ (r : Result LoginOutput × System). r.1.db.sessions) h),
  )

pending_same :
    (draws : Draws) (input : LoginInput) (u u' : User)
    → u'.id ≡ u.id
    → pending_challenge draws input u' ≡ pending_challenge draws input u
unfolding pending_challenge
pending_same draws input u u' h = rw h

module _ (draws : Draws) (input : LoginInput) (u : User) (out : LoginOutput) where
  -- What the user's second factor decides
  abbrev pub Given : SessionAggregate → SessionTables → System → Type 0
  Given s sessions sys' =
      (out.user_id ≡ u.id)
      × (out.requires_two_factor ≡ User.has_two_factor u)
      × (User.has_two_factor u ≡ true
          → (out.session_id ≡ none)
            × (out.refresh_token ≡ none)
            × (out.challenge_token ≡ some draws.challenge_token)
            × (sys'.db.sessions ≡ sessions)
            × ((ChallengeStore.read sys'.challenges draws.challenge_token draws.now).0
                ≡ ok (ChallengeStore.stored (pending_challenge draws input u))))
      × (User.has_two_factor u ≡ false
          → (out.session_id ≡ some s.session_id)
            × (out.refresh_token ≡ some draws.raw)
            × (out.challenge_token ≡ none)
            × (sys'.db.sessions ≡ SessionRepo.add s sessions))

  given_lem :
      (u' : User) (w : Work) (sys sys' : System) (s s' : SessionAggregate) (raw : String)
      (sessions : SessionTables)
      → s' ≡ s
      → raw ≡ draws.raw
      → w.db.sessions ≡ sessions
      → u'.id ≡ u.id
      → User.has_two_factor u' ≡ User.has_two_factor u
      → (if User.has_two_factor u'
          then demand_second_factor draws input u' w sys
          else open_session draws input u' s' raw w sys)
        ≡ (ok out, sys')
      → Given s sessions sys'
  given_lem u' w sys sys' s s' raw sessions same_session same_raw same_rows same_id same_factor
        ended =
      elim (Bool-cases (User.has_two_factor u')) [
        | inl on ↦
            let (a, b, c, d, t, e, f) = demanded draws input u' w sys sys' out (ground arith) in
            (
              a ∙ same_id,
              b ∙ sym on ∙ same_factor,
              λ o. (
                c,
                d,
                t,
                e ∙ same_rows,
                f ∙ ap (λ p. ok (ChallengeStore.stored p)) (pending_same draws input u u' same_id),
              ),
              λ o. absurd (ground arith),
            )
        | inr off ↦
            let (a, b, c, d, t, e) = opened draws input u' w sys sys' out s' raw (ground arith) in
            (
              a ∙ same_id,
              b ∙ sym off ∙ same_factor,
              λ o. absurd (ground arith),
              λ o. (
                c ∙ ap (λ (x : SessionAggregate). some x.session_id) same_session,
                d ∙ ap some same_raw,
                t,
                e
                    ∙ ap (λ x. SessionRepo.add x w.db.sessions) same_session
                    ∙ ap (SessionRepo.add s) same_rows,
              ),
            )
      ]

built_lem :
    (crypto : Crypto) (draws : Draws) (u : User) (device : DeviceInfo) (s : SessionAggregate)
    (raw : String)
    → some (s, raw) ≡ some (build_session crypto draws (User.record_successful_login u) device)
    → (s ≡ (build_session crypto draws u device).0) × (raw ≡ draws.raw)
unfolding build_session User.record_successful_login
built_lem crypto draws u device s raw h = (cc h, cc h)

-- A login that gives out anything has found a user by the username or the address, neither locked nor
-- deleted, with that password. If the user has a second factor it gives out no session and no refresh
-- token and adds no session, but the token of a challenge that can be read back with it and names the
-- user; if not, it gives out no such token, and the session that it names is the only change of the
-- session tables.
pub login_lem :
    (lower : String → String) (config : RateLimitConfig) (crypto : Crypto) (classes : CharClasses)
    (draws : Draws) (input : LoginInput) (sys sys' : System) (out : LoginOutput)
    → login draws input config crypto classes lower sys ≡ (ok out, sys')
    → (u : User) × (find_identified crypto draws input sys.db.users ≡ ok (some u))
      × (User.is_locked u draws.now ≡ false)
      × (User.is_deleted u ≡ false)
      × (User.verify_password crypto u input.password ≡ true)
      × Given draws input u out
          (build_session crypto draws u (device_of input.user_agent input.ip_address)).0
          sys.db.sessions
          sys'
unfolding login
login_lem lower config crypto classes draws input sys sys' out h =
    let key = attempt_key lower input in
    let (sys1, passed, finished) =
      attempt_lem draws input config key crypto classes sys' (gate config draws.now sys key) out
        h in
    let (u', s, raw, w, authenticated, ended) =
      finish_lem draws input config key sys1 sys' (authenticate crypto draws input (begin sys1.db))
        out finished in
    let (found, identified, checked) =
      for_found_lem crypto draws input (begin sys1.db) w
        (find_identified crypto draws input sys1.db.users) (some u', some (s, raw))
        (unfold authenticate begin in authenticated) in
    let (u, is_u, unlocked, undeleted, right, stored_user) =
      authenticate_user_lem crypto draws input.password
        (device_of input.user_agent input.ip_address) (begin sys1.db) w found u' s raw checked in
    let (same_id, same_factor, built, kept) =
      account_lem u u' (begin sys1.db) w
        (some (
          build_session crypto draws (User.record_successful_login u)
            (device_of input.user_agent input.ip_address)))
        (some (s, raw)) stored_user in
    let same_db : sys1.db ≡ sys.db = gate_db config draws.now sys sys1 key passed in
    let kept_rows : w.db.sessions ≡ sys1.db.sessions = unfold begin in kept in
    let (same_session, same_raw) =
      built_lem crypto draws u (device_of input.user_agent input.ip_address) s raw built in
    (
      u,
      ap (λ (d : Database). find_identified crypto draws input d.users) (sym same_db)
          ∙ identified
          ∙ ap ok is_u,
      unlocked,
      undeleted,
      right,
      given_lem draws input u out u' w (forgive key sys1) sys'
          (build_session crypto draws u (device_of input.user_agent input.ip_address)).0 s raw
          sys.db.sessions same_session same_raw
          (kept_rows ∙ ap (λ (d : Database). d.sessions) same_db) same_id same_factor ended,
    )
