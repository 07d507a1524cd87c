-- ===== src/TokenCheck/Replies/Justifies.antt =====
-- What justifies an outcome of the checks of internal/tokencheck/tokencheck.go tells of the service's answer.
use external_gateway.Prelude.{
  Map, lookup, codes, ◌++◌, ◌∷◌, ◌≢◌, ◌≤◌, ◌<◌, ◌&&◌, ◌||◌, Bool, true, false, Bytes, List, [],
  none, some, Result, ok, err, ltb, leb, ◌==◌, ◌≡◌, ◌⊎◌, inl, inr, refl, arith, Bool-cases,
  Option-cases,
}
use external_gateway.Config.{Environment}
use external_gateway.TokenCheck.{
  State, accepted, rejected, unreachable, unchecked, Kind, kibana, slack_session, trello, Outcome,
  Request, Response, SlackReply, Formats, Login, Network, checkable, gitlab, github, atlassian,
  jira_server, jenkins, bitbucket, clockify, authentik, postgres, imap,
}
use external_gateway.Value.{Fields}
use external_gateway.Postgres.{trim_suffix}
use external_gateway.Server.PathTemplate.{query_escape}
use external_gateway.TokenCheck.Replies.{
  state_is_accepted, classify, identified, wrong_password, wrong_login, trim_slashes, or_else,
}

-- A credential is a pair.
abbrev pub needs_pair : Kind → Bool
needs_pair slack_session = true
needs_pair trello = true
needs_pair other = false

-- There is nothing to ask: no check for the kind, half of a pair, or no server.
abbrev pub IsUnaskable : Environment → Kind → Bytes → Type 0
IsUnaskable env kind secondary =
    (checkable kind ≡ false)
    ⊎ ((needs_pair kind ≡ true) × (secondary ≡ []))
    ⊎ ((kind ≡ kibana) × (env.base_url ≡ []))

-- The call by which a service tells whose the credential is, with its authorization.
module _ (formats : Formats) (env : Environment) (primary secondary : Bytes) where
  abbrev Gets : Bytes → Map Bytes → Request → Type 0
  Gets path headers req =
      (req.method ≡ codes "GET")
      × (req.url ≡ trim_slashes env.base_url ++ path)
      × (req.headers ≡ headers)
      × (req.body ≡ [])

  abbrev as_bearer : Map Bytes
  as_bearer = (codes "Authorization", codes "Bearer " ++ primary) ∷ []

  abbrev as_user : Map Bytes
  as_user = (codes "Authorization", formats.basic_auth env.user primary) ∷ []

  abbrev pub AsksIdentity : Kind → Request → Type 0
  AsksIdentity gitlab req = Gets (codes "/user") as_bearer req
  AsksIdentity github req = Gets (codes "/user") as_bearer req
  AsksIdentity atlassian req =
      (req.method ≡ codes "GET")
      × (req.url
          ≡ trim_suffix (trim_slashes env.base_url) (codes "/wiki") ++ codes "/rest/api/3/myself")
      × (req.headers ≡ as_user)
      × (req.body ≡ [])
  AsksIdentity jira_server req =
      ((env.auth.type ≡ codes "bearer") × Gets (codes "/rest/api/2/myself") as_bearer req)
      ⊎ ((env.auth.type ≢ codes "bearer") × Gets (codes "/rest/api/2/myself") as_user req)
  AsksIdentity jenkins req = Gets (codes "/me/api/json") as_user req
  AsksIdentity bitbucket req = Gets (codes "/2.0/user") as_user req
  AsksIdentity kibana req = Gets (codes "/api/status") as_user req
  AsksIdentity clockify req =
      Gets (codes "/user") ((or_else env.auth.header (codes "X-Api-Key"), primary) ∷ []) req
  AsksIdentity authentik req = Gets (codes "/api/v3/core/users/me/") as_bearer req
  AsksIdentity slack_session req =
      (req.method ≡ codes "POST")
      × (req.url ≡ trim_slashes env.base_url ++ codes "/auth.test")
      × (lookup (codes "Cookie") req.headers ≡ some (codes "d=" ++ secondary))
      × (req.body ≡ codes "token=" ++ query_escape primary)
  AsksIdentity trello req =
      Gets
        (codes "/members/me?key="
          ++ query_escape primary
          ++ codes "&token="
          ++ query_escape secondary)
        [] req
  AsksIdentity other req = ⊥

-- The kinds whose success is to be a JSON object.
abbrev pub needs_object : Kind → Bool
needs_object github = false
needs_object slack_session = false
needs_object other = true

-- Why a state is right, by what the services answered: `asks` is the call that identifies the
-- credential, `login` the login with it at a database or a mail server.
pub data Justifies (formats : Formats) (net : Network) (kind : Kind) (Asks : Request → Type 0)
    (Logins : Login → Type 0) (Unasked : Type 0) : State → Type 0 where
  not_asked : Unasked → Justifies formats net kind Asks Logins Unasked unchecked
  -- a reply of success, with an object where one is due
  success :
      {req : Request} {resp : Response}
      → Asks req
      → net.send 1 req ≡ ok resp
      → (200 ≤ resp.status) × (resp.status < 300)
      → (needs_object kind ≡ true → (m : Fields) × (formats.object resp.body ≡ some m))
      → Justifies formats net kind Asks Logins Unasked accepted
  slack_success :
      {req : Request} {resp : Response} {out : SlackReply}
      → kind ≡ slack_session
      → Asks req
      → net.send 1 req ≡ ok resp
      → formats.slack_reply resp.body ≡ some out
      → out.ok ≡ true
      → Justifies formats net kind Asks Logins Unasked accepted
  connected :
      {login : Login}
      → kind ≡ postgres
      → Logins login
      → net.connect login ≡ none
      → Justifies formats net kind Asks Logins Unasked accepted
  listed :
      {login : Login}
      → kind ≡ imap
      → Logins login
      → net.mailboxes login ≡ none
      → Justifies formats net kind Asks Logins Unasked accepted
  -- a reply that is no success and no failure of the server
  refused :
      {req : Request} {resp : Response}
      → Asks req
      → net.send 1 req ≡ ok resp
      → (resp.status < 200) ⊎ ((300 ≤ resp.status) × (resp.status < 500))
      → Justifies formats net kind Asks Logins Unasked rejected
  no_object :
      {req : Request} {resp : Response}
      → needs_object kind ≡ true
      → Asks req
      → net.send 1 req ≡ ok resp
      → formats.object resp.body ≡ none
      → Justifies formats net kind Asks Logins Unasked rejected
  slack_refused :
      {req : Request} {resp : Response} {out : SlackReply}
      → kind ≡ slack_session
      → Asks req
      → net.send 1 req ≡ ok resp
      → formats.slack_reply resp.body ≡ some out
      → out.ok ≡ false
      → Justifies formats net kind Asks Logins Unasked rejected
  database_refused :
      {login : Login} {message : Bytes}
      → kind ≡ postgres
      → Logins login
      → net.connect login ≡ some message
      → wrong_password message ≡ true
      → Justifies formats net kind Asks Logins Unasked rejected
  mail_refused :
      {login : Login} {message : Bytes}
      → kind ≡ imap
      → Logins login
      → net.mailboxes login ≡ some message
      → wrong_login message ≡ true
      → Justifies formats net kind Asks Logins Unasked rejected
  -- no reply, or the server's failure
  no_reply :
      {req : Request} {message : Bytes}
      → Asks req
      → net.send 1 req ≡ err message
      → Justifies formats net kind Asks Logins Unasked unreachable
  server_failed :
      {req : Request} {resp : Response}
      → Asks req
      → net.send 1 req ≡ ok resp
      → 500 ≤ resp.status
      → Justifies formats net kind Asks Logins Unasked unreachable
  no_database :
      {login : Login} {message : Bytes}
      → kind ≡ postgres
      → Logins login
      → net.connect login ≡ some message
      → wrong_password message ≡ false
      → Justifies formats net kind Asks Logins Unasked unreachable
  no_mail :
      {login : Login} {message : Bytes}
      → kind ≡ imap
      → Logins login
      → net.mailboxes login ≡ some message
      → wrong_login message ≡ false
      → Justifies formats net kind Asks Logins Unasked unreachable

pub outcomes :
    {A : Type 0} (r : Result Bytes A) → ((m : Bytes) × (r ≡ err m)) ⊎ ((a : A) × (r ≡ ok a))
outcomes (ok a) = inr (a, refl)
outcomes (err m) = inl (m, refl)

module _ (formats : Formats) (net : Network) (kind : Kind) (Asks : Request → Type 0)
    (Logins : Login → Type 0) (Unasked : Type 0) where
  abbrev pub Fits : Outcome → Type 0
  Fits res = Justifies formats net kind Asks Logins Unasked res.state

  -- The body is an object, where one is due.
  abbrev HasObject : Response → Type 0
  HasObject resp = needs_object kind ≡ true → (m : Fields) × (formats.object resp.body ≡ some m)

  pub classify-Fits :
      (req : Request) (resp : Response)
      → Asks req
      → net.send 1 req ≡ ok resp
      → (state_is_accepted (classify formats resp).state ≡ true → HasObject resp)
      → Fits (classify formats resp)
  unfolding classify
  classify-Fits req resp asks h object =
      elim (Bool-cases (resp.status == 401 || resp.status == 403)) [
        | inl a ↦ rw (a) (refused asks h (inr (ground arith)))
        | inr a ↦ elim (Bool-cases (leb 200 resp.status && ltb resp.status 300)) [
          | inl b ↦ rw (a, b) (success asks h (ground arith) (object (rw (a, b) refl)))
          | inr b ↦ elim (Bool-cases (leb 500 resp.status)) [
            | inl c ↦ rw (a, b, c) (server_failed asks h (ground arith))
            | inr c ↦ rw (a, b, c) (refused asks h (ground arith))
          ]
        ]
      ]

  pub identified-Fits :
      (req : Request) (resp : Response) (fields : List Bytes)
      → needs_object kind ≡ true
      → Asks req
      → net.send 1 req ≡ ok resp
      → Fits (identified formats resp fields (classify formats resp))
  unfolding identified
  identified-Fits req resp fields due asks h =
      elim (Bool-cases (state_is_accepted (classify formats resp).state)) [
        | inr a ↦ rw (a) (classify-Fits req resp asks h (λ t. absurd (ground arith)))
        | inl a ↦ elim (Option-cases (formats.object resp.body)) [
          | inl b ↦ rw (a, b) (no_object due asks h b)
          | inr (m, b) ↦ rw (a, b) (classify-Fits req resp asks h (λ t d. (m, b)))
        ]
      ]
