-- ===== src/TokenCheck/Checks/Fits.antt =====
-- Each check of internal/tokencheck/tokencheck.go by itself, and the answer that its outcome tells of.
use external_gateway.Prelude.{
  arith, Bool, true, false, Bytes, List, [], ◌∷◌, str_eq, str_eq_iff, codes, Result, ok, err, ◌==◌,
  if◌then◌else◌, ◌≡◌, ◌⊎◌, inl, inr, refl, sym, subst, Bool-cases, Option-cases,
}
use external_gateway.Config.{Environment}
use external_gateway.TokenCheck.{
  unchecked, Kind, slack_session, postgres, imap, Outcome, outcome, Request, Response, Formats,
  Network, Login,
}
use external_gateway.TokenCheck.Replies.{
  state_is_accepted, unreachable_by, classify, slack_outcome, wrong_password, wrong_login,
}
use external_gateway.TokenCheck.Checks.{
  user_request, own_token_request, slack_request, check_json, described, check_gitlab,
  with_github_headers, check_github, slack_replied, check_slack, postgres_login, imap_login,
  check_postgres, check_imap,
}
use external_gateway.TokenCheck.Replies.Justifies.{
  needs_object, Justifies, not_asked, slack_success, connected, listed, slack_refused,
  database_refused, mail_refused, no_reply, no_database, no_mail, outcomes, classify-Fits,
  identified-Fits,
}

module _ (formats : Formats) (net : Network) (kind : Kind) (Asks : Request → Type 0)
    (Logins : Login → Type 0) (Unasked : Type 0) (env : Environment) where
  abbrev Fits : Outcome → Type 0
  Fits res = Justifies formats net kind Asks Logins Unasked res.state

  reply_cases :
      (req : Request)
      → ((m : Bytes) × (net.send 1 req ≡ err m)) ⊎ ((r : Response) × (net.send 1 req ≡ ok r))
  reply_cases req = outcomes (net.send 1 req)

  pub check_json-Fits :
      (req : Request) (fields : List Bytes)
      → needs_object kind ≡ true
      → Asks req
      → Fits (check_json formats net env req fields)
  unfolding check_json unreachable_by
  check_json-Fits req fields due asks = elim (reply_cases req) [
    | inl (m, e) ↦ rw (e, check_json) (no_reply asks e)
    | inr (r, e) ↦
        rw (e, check_json)
          (identified-Fits formats net kind Asks Logins Unasked req r fields due asks e)
  ]

  described-state :
      (r : Result Bytes Response) (res : Outcome)
      → (described formats net env r res).state ≡ res.state
  unfolding described
  described-state (err m) res = refl
  described-state (ok resp) res = elim (Bool-cases (resp.status == 200)) [
    | inr a ↦ rw (a) refl
    | inl a ↦ elim (Option-cases (formats.own_token resp.body)) [
      | inl b ↦ rw (a, b) refl
      | inr (t, b) ↦ rw (a, b) refl
    ]
  ]

  described_if :
      (b : Bool) (r : Result Bytes Response) (res : Outcome)
      → Fits res
      → Fits (if b then described formats net env r res else res)
  described_if true r res h =
      subst (Justifies formats net kind Asks Logins Unasked) (sym (described-state r res)) h
  described_if false r res h = h

  pub check_gitlab-Fits :
      (token : Bytes)
      → needs_object kind ≡ true
      → Asks (user_request formats net env token)
      → Fits (check_gitlab formats net env token)
  unfolding check_gitlab
  check_gitlab-Fits token due asks =
      let fields = codes "username" ∷ codes "name" ∷ [] in
      let res = check_json formats net env (user_request formats net env token) fields in
      described_if (state_is_accepted res.state)
        (net.send 2 (own_token_request formats net env token)) res
        (check_json-Fits (user_request formats net env token) fields due asks)

  with_github_headers-state :
      (resp : Response) (res : Outcome)
      → (with_github_headers formats net env resp res).state ≡ res.state
  unfolding with_github_headers
  with_github_headers-state resp res = elim (Bool-cases (state_is_accepted res.state)) [
    | inl a ↦ rw (a) refl
    | inr a ↦ rw (a) refl
  ]

  pub check_github-Fits :
      (token : Bytes)
      → needs_object kind ≡ false
      → Asks (user_request formats net env token)
      → Fits (check_github formats net env token)
  unfolding check_github unreachable_by
  check_github-Fits token free asks = elim (reply_cases (user_request formats net env token)) [
    | inl (m, e) ↦ rw (e, check_github) (no_reply asks e)
    | inr (r, e) ↦
        rw (e, check_github)
          (subst (Justifies formats net kind Asks Logins Unasked)
            (sym (with_github_headers-state r (classify formats r)))
            (classify-Fits formats net kind Asks Logins Unasked (user_request formats net env token)
              r asks e (λ t due. absurd (ground arith))))
  ]

  slack_replied-Fits :
      (req : Request) (resp : Response)
      → kind ≡ slack_session
      → Asks req
      → net.send 1 req ≡ ok resp
      → Fits (slack_replied formats net env resp)
  unfolding slack_replied slack_outcome
  slack_replied-Fits req resp is asks h = elim (Option-cases (formats.slack_reply resp.body)) [
    | inl a ↦
        rw (a, slack_replied)
          (classify-Fits formats net kind Asks Logins Unasked req resp asks h
            (λ t due. absurd (slack_free due)))
    | inr (out, a) ↦ elim (Bool-cases out.ok) [
      | inl b ↦ rw (a, slack_replied, b) (slack_success is asks h a b)
      | inr b ↦ rw (a, slack_replied, b) (slack_refused is asks h a b)
    ]
  ]
    where
      slack_free : needs_object kind ≡ true → ⊥
      slack_free due =
          let no : needs_object slack_session ≡ true = subst (λ k. needs_object k ≡ true) is due in
          ground arith

  pub check_slack-Fits :
      (xoxc xoxd : Bytes)
      → kind ≡ slack_session
      → Asks (slack_request formats net env xoxc xoxd)
      → (xoxd ≡ [] → Unasked)
      → Fits (check_slack formats net env xoxc xoxd)
  unfolding check_slack unreachable_by
  check_slack-Fits xoxc xoxd is asks u = elim (Bool-cases (str_eq xoxd [])) [
    | inl a ↦ rw (a) (not_asked (u ((str_eq_iff xoxd []).0 a)))
    | inr a ↦ elim (reply_cases (slack_request formats net env xoxc xoxd)) [
      | inl (m, e) ↦ rw (a, e, check_slack) (no_reply asks e)
      | inr (r, e) ↦
          rw (a, e, check_slack)
            (slack_replied-Fits (slack_request formats net env xoxc xoxd) r is asks e)
    ]
  ]

  pub check_postgres-Fits :
      (password : Bytes)
      → kind ≡ postgres
      → Logins (postgres_login formats net env password)
      → Fits (check_postgres formats net env password)
  unfolding check_postgres unreachable_by
  check_postgres-Fits password is logs =
      elim (Option-cases (net.connect (postgres_login formats net env password))) [
        | inl a ↦ rw (a, check_postgres) (connected is logs a)
        | inr (msg, a) ↦ elim (Bool-cases (wrong_password msg)) [
          | inl b ↦ rw (a, check_postgres, b) (database_refused is logs a b)
          | inr b ↦ rw (a, check_postgres, b) (no_database is logs a b)
        ]
      ]

  pub check_imap-Fits :
      (password : Bytes)
      → kind ≡ imap
      → Logins (imap_login formats net env password)
      → Fits (check_imap formats net env password)
  unfolding check_imap unreachable_by
  check_imap-Fits password is logs =
      elim (Option-cases (net.mailboxes (imap_login formats net env password))) [
        | inl a ↦ rw (a, check_imap) (listed is logs a)
        | inr (msg, a) ↦ elim (Bool-cases (wrong_login msg)) [
          | inl b ↦ rw (a, check_imap, b) (mail_refused is logs a b)
          | inr b ↦ rw (a, check_imap, b) (no_mail is logs a b)
        ]
      ]

  pub if_unasked :
      (b : Bool) (detail : Bytes) (res : Outcome)
      → (b ≡ true → Unasked)
      → Fits res
      → Fits (if b then outcome unchecked 0 detail else res)
  if_unasked true detail res u h = not_asked (u refl)
  if_unasked false detail res u h = h
