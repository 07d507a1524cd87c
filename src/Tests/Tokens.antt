-- ===== src/Tests/Tokens.antt =====
-- Checks of credentials at a small network.
use external_gateway.Prelude.{ℕ, true, [], none, some, codes, ok, ◌≡◌, refl}
use external_gateway.Value.{str, Fields, end, field}
use external_gateway.TokenCheck.{
  State, accepted, rejected, Kind, jenkins, gitlab, jira_server, atlassian_mcp, detect_kind,
  Response, Formats, Network,
}
use external_gateway.TokenCheck.Replies.{wrong_login}
use external_gateway.TokenCheck.Checks.{check}
use external_gateway.TokenCheck.Replies.Justifies.{Justifies}
use external_gateway.Tests.Fixtures.{production}

abbrev account : Fields
account = field (codes "fullName") (str (codes "Ann")) end

abbrev formats : Formats
formats = record {
  object = λ body. some account;
  own_token = λ body. none;
  slack_reply = λ body. none;
  print = λ v. codes "Ann";
  quote = λ s. s;
  basic_auth = λ user secret. codes "Basic ";
}

-- Every request is replied with the status.
abbrev replies : ℕ → Network
replies status = record {
  send = λ n req. ok (record { status = status; header = λ name. []; body = [] });
  connect = λ login. none;
  mailboxes = λ login. none;
}

states :
    ((check formats (replies 200) production jenkins (codes "s") []).state ≡ accepted)
    × ((check formats (replies 403) production jenkins (codes "s") []).state ≡ rejected)
    × ((check formats (replies 200) production jenkins (codes "s") []).identity ≡ codes "Ann")
unfolding check external_gateway.TokenCheck.Replies.trim_slashes
states = (refl, refl, refl)

kinds :
    (detect_kind (codes "jenkins") production ≡ jenkins)
    × (detect_kind (codes "acme-jira") production ≡ jira_server)
unfolding detect_kind
kinds = (refl, refl)

-- A failure of TLS is taken for a refused login.
untrusted : wrong_login (codes "x509: certificate signed by unknown authority") ≡ true
unfolding wrong_login
untrusted = refl
