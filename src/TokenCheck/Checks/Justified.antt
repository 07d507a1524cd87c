-- ===== src/TokenCheck/Checks/Justified.antt =====
-- What the outcome of `Check` of internal/tokencheck/tokencheck.go tells of the service's answer.
use external_gateway.Prelude.{Bytes, ◌≡◌}
use external_gateway.Config.{Environment}
use external_gateway.TokenCheck.{State, Kind, postgres, imap, Formats, Network, Login}
use external_gateway.TokenCheck.Checks.{postgres_login, imap_login}
use external_gateway.TokenCheck.Replies.Justifies.{AsksIdentity, Justifies}

-- The login with the credential: at the configured host, or the base address, as the configured user.
abbrev pub LogsIn : Formats → Network → Environment → Kind → Bytes → Login → Type 0
LogsIn formats net env postgres primary login = (login ≡ postgres_login formats net env primary)
LogsIn formats net env imap primary login = (login ≡ imap_login formats net env primary)
LogsIn formats net env other primary login = ⊥

module _ (formats : Formats) (net : Network) (env : Environment) (Unasked : Type 0)
    (primary secondary : Bytes) where
  abbrev Justified : Kind → State → Type 0
  Justified kind =
      Justifies formats net kind (AsksIdentity formats env primary secondary kind)
        (LogsIn formats net env kind primary) Unasked
