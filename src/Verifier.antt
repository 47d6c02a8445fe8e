-- ===== src/Verifier.antt =====
-- remote_agent_connector/app_assertion.py: the reference verifier of a device. Its replay cache is
-- `Verifier/Replay`, its keysets `Verifier/Keyset`, its checks of an assertion `Verifier/Check`.
pub mod Replay
pub mod Keyset
pub mod Check
use remote_agent_connector.Prelude.{
  ℕ, String, Bool, true, false, ◌&&◌, not, max, Option, none, some, List, [], ◌==◌, if◌then◌else◌,
}
use remote_agent_connector.Prelude.Int.{ℤ, pos, pos_part}
use remote_agent_connector.Prelude.Json.{Json, int, boolean, str}
use remote_agent_connector.Prelude.Texts.{strip}
use remote_agent_connector.Relay.{
  Exc, protocol_error, runtime_error, assertion_error, Result, ok, err,
}
use remote_agent_connector.Delegation.{Codec}
use remote_agent_connector.Delegation.Assertion.{decodes_to}

abbrev pub unverified : Exc
unverified = assertion_error "app_assertion_unverified"

pub record TrustAnchor : Type 0 where
  pub root_key_id : String
  pub root_public_key : String

-- `__post_init__`; `false` is its `ValueError`.
unfoldable pub anchor_fits : Codec → TrustAnchor → Bool
anchor_fits codec a = not (strip a.root_key_id == "") && decodes_to codec 32 (str a.root_public_key)

pub record Verifier : Type 0 where
  pub anchor : TrustAnchor
  pub connector_id : String
  pub clock_skew_seconds : ℕ
  pub seen_limit : ℕ
  -- `_seen`: the ids that were accepted with their expiries, oldest first
  pub seen : List (String × ℤ)

-- `__init__`.
unfoldable pub start : TrustAnchor → String → ℤ → ℤ → Verifier
start anchor connector_id clock_skew_seconds seen_limit = record {
  anchor = anchor;
  connector_id = connector_id;
  clock_skew_seconds = pos_part clock_skew_seconds;
  seen_limit = max 1 (pos_part seen_limit);
  seen = [];
}

-- `_verify_signature`, as a test.
unfoldable pub verify_signature : Codec → Json → String → Json → Bool
unfolding decodes_to
verify_signature codec public_key payload signature =
    decodes_to codec 32 public_key
    && decodes_to codec 64 signature
    && codec.ed25519 public_key payload signature

-- A value for which `isinstance(value, int)` holds: a Boolean is one.
unfoldable pub as_int : Json → Option ℤ
as_int (int n) = some n
as_int (boolean b) = some (if b then pos 1 else pos 0)
as_int v = none
