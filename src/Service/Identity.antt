-- ===== src/Service/Identity.antt =====
-- remote_agent_connector/protocol.py: the identity that the Hub delegates. The signed assertion is the
-- dictionary that `parse_app_assertion` returns.
use remote_agent_connector.Prelude.{String, Option, List}
use remote_agent_connector.Prelude.Int.{ℤ}
use remote_agent_connector.Prelude.Json.{Fields}

pub record DelegatedIdentity : Type 0 where
  pub client_id : String
  pub scopes : List String
  pub nonce : String
  pub timestamp : ℤ
  pub app_id : String
  pub app_assertion : Option Fields
