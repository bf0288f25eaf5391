-- ===== src/Challenge/SingleUse.antt =====
-- A challenge of internal/licensecore/server.go serves one request, of the client that it was issued to.
use license_guard.Base.{
  ◌+◌, ◌*◌, ◌≤◌, ◌∙◌, String, [], ◌∷◌, false, Option, none, some, lookup, ◌≡◌, ◌≢◌, ◌↔◌, arith,
  refl, eq_iff, lookup-retain, lookup-retain-none, lookup-delete_self, lookup-delete_ne,
  lookup-insert_self, Option-cases, inl, inr,
}
use license_guard.Types.{Challenge, Time, after, second}
use license_guard.Server.{Server, Env, Request}
use license_guard.RateLimit.{rate_limit_key, client_addr, reset_rate_limit_locked}
use license_guard.Challenge.{
  take_challenge, validate_challenge_locked, cleanup_expired_challenges_locked, ChallengeRequest,
  issued, new_challenge, handle_challenge,
}

-- A challenge is stored under the id, has not expired, and was issued for this app, installation
-- and nonce.
pub record Answers (s : Server) (now : Time) (app_id install_id challenge_id nonce : String)
    : Type 0 where
  pub challenge : Challenge
  pub stored : lookup challenge_id s.challenges ≡ some challenge
  pub fresh : after now challenge.expires_at ≡ false
  pub app : challenge.app_id ≡ app_id
  pub install : challenge.install_id ≡ install_id
  pub nonce_matches : challenge.nonce ≡ nonce

-- A challenge is accepted exactly if it is stored, has not expired, and was issued for the app, the
-- installation and the nonce of the request.
pub validate-Answers :
    (s : Server) (now : Time) (app_id install_id challenge_id nonce : String)
    → ((validate_challenge_locked s now app_id install_id challenge_id nonce).1 ≡ none)
      ↔ Answers s now app_id install_id challenge_id nonce
unfolding validate_challenge_locked
validate-Answers s now app_id install_id challenge_id nonce =
    elim (Option-cases (lookup challenge_id s.challenges)) [
      | inl e ↦ (λ h. absurd (ground arith), λ a. absurd (ground (arith, a.stored)))
      | inr (c, e) ↦ (
        λ h. record {
          challenge = c;
          stored = e;
          fresh = ground arith;
          app = ground (arith, eq_iff c.app_id app_id);
          install = ground (arith, eq_iff c.install_id install_id);
          nonce_matches = ground (arith, eq_iff c.nonce nonce);
        },
        λ a. ground (
          arith,
          a.stored,
          a.fresh,
          a.app,
          a.install,
          a.nonce_matches,
          eq_iff c.app_id app_id,
          eq_iff c.install_id install_id,
          eq_iff c.nonce nonce,
        ),
      )
    ]

-- Whatever the answer is, the challenge is not stored any more.
validate-spent :
    (s : Server) (now : Time) (app_id install_id challenge_id nonce : String)
    → lookup challenge_id
        (validate_challenge_locked s now app_id install_id challenge_id nonce).0.challenges
      ≡ none
unfolding validate_challenge_locked
validate-spent s now app_id install_id challenge_id nonce =
    lookup-retain-none _ challenge_id _ (left (lookup challenge_id s.challenges) refl)
  where
    left :
        (found : Option Challenge)
        → lookup challenge_id s.challenges ≡ found
        → lookup challenge_id
            (take_challenge s.challenges now app_id install_id challenge_id nonce).0
          ≡ none
    left none e = rw (e, take_challenge) e
    left (some c) e = rw (e, take_challenge) (lookup-delete_self challenge_id s.challenges)

validate-missing :
    (s : Server) (now : Time) (app_id install_id challenge_id nonce : String)
    → lookup challenge_id s.challenges ≡ none
    → (validate_challenge_locked s now app_id install_id challenge_id nonce).1
      ≡ some "challenge not found"
unfolding validate_challenge_locked
validate-missing s now app_id install_id challenge_id nonce e = rw (e, take_challenge)

-- A second request with a challenge that was used is refused, whatever app, installation and nonce
-- it names and whatever the first answer was.
pub replay_refused :
    (s : Server) (now later : Time) (app_id install_id challenge_id nonce : String)
    (app_id' install_id' nonce' : String)
    → let s' = (validate_challenge_locked s now app_id install_id challenge_id nonce).0 in
      (validate_challenge_locked s' later app_id' install_id' challenge_id nonce').1
      ≡ some "challenge not found"
replay_refused s now later app_id install_id challenge_id nonce app_id' install_id' nonce' =
    validate-missing (validate_challenge_locked s now app_id install_id challenge_id nonce).0 later
      app_id' install_id' challenge_id nonce'
      (validate-spent s now app_id install_id challenge_id nonce)

-- Another challenge that has not expired is left as it was.
pub validate-keeps :
    (s : Server) (now : Time) (app_id install_id challenge_id nonce other : String) (c : Challenge)
    → challenge_id ≢ other
    → lookup other s.challenges ≡ some c
    → after now c.expires_at ≡ false
    → lookup other
        (validate_challenge_locked s now app_id install_id challenge_id nonce).0.challenges
      ≡ some c
unfolding validate_challenge_locked
validate-keeps s now app_id install_id challenge_id nonce other c ne h fresh =
    lookup-retain _ other _ (left (lookup challenge_id s.challenges) refl) (rw fresh)
  where
    left :
        (found : Option Challenge)
        → lookup challenge_id s.challenges ≡ found
        → lookup other (take_challenge s.challenges now app_id install_id challenge_id nonce).0
          ≡ some c
    left none e = rw (e, take_challenge) h
    left (some d) e =
        rw (e, take_challenge) (lookup-delete_ne challenge_id other s.challenges ne ∙ h)

abbrev IsIssued : Server → ChallengeRequest → Challenge → Time → Type 0
IsIssued s req c t =
    (lookup c.id s.challenges ≡ some c)
    × (c.app_id ≡ req.app_id)
    × (c.install_id ≡ req.install_id)
    × (c.expires_at ≡ t + 300 * second)

handle_challenge-IsIssued :
    (env : Env) (s : Server) (r : Request) (req : ChallengeRequest) (c : Challenge) (t : Time)
    → (handle_challenge env s r req).1 ≡ issued c t
    → IsIssued (handle_challenge env s r req).0 req c t
unfolding handle_challenge
handle_challenge-IsIssued env s r req c t h =
    let key = rate_limit_key ("challenge" ∷ req.app_id ∷ req.install_id ∷ client_addr env r ∷ []) in
    let cleaned = cleanup_expired_challenges_locked s (env.time 1192) in
    ground (
      arith,
      lookup-insert_self (new_challenge env req).id (new_challenge env req)
          (reset_rate_limit_locked cleaned key).challenges,
    )

-- The challenge that a client is given serves it, and it alone: with the id and the nonce of the
-- reply, a request is accepted exactly if it names the same app and installation, and comes no
-- later than five minutes after the challenge.
pub issued-Answers :
    (env : Env) (s : Server) (r : Request) (req : ChallengeRequest) (c : Challenge) (t now : Time)
    (app_id install_id : String)
    → (handle_challenge env s r req).1 ≡ issued c t
    → ((validate_challenge_locked
          (handle_challenge env s r req).0
          now
          app_id
          install_id
          c.id
          c.nonce).1
        ≡ none)
      ↔ ((app_id ≡ req.app_id) × (install_id ≡ req.install_id) × (now ≤ t + 300 * second))
issued-Answers env s r req c t now app_id install_id h =
    let (stored, app, install, until) = handle_challenge-IsIssued env s r req c t h in
    let s' = (handle_challenge env s r req).0 in
    let (to, from) = validate-Answers s' now app_id install_id c.id c.nonce in
    (
      λ e. answered (to e) stored app install until,
      λ (a, i, late). from (record {
        challenge = c;
        stored = stored;
        fresh = ground (arith, until);
        app = ground (arith, app);
        install = ground (arith, install);
        nonce_matches = refl;
      }),
    )
  where
    answered :
        {s' : Server}
        → Answers s' now app_id install_id c.id c.nonce
        → lookup c.id s'.challenges ≡ some c
        → c.app_id ≡ req.app_id
        → c.install_id ≡ req.install_id
        → c.expires_at ≡ t + 300 * second
        → (app_id ≡ req.app_id) × (install_id ≡ req.install_id) × (now ≤ t + 300 * second)
    answered a stored app install until = ground (arith, a.stored, a.fresh, a.app, a.install)
