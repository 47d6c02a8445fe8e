-- ===== src/Store/Tokens.antt =====
-- remote_agent_connector/store.py: enrollment tokens. `sha256` is the hash that the standard library
-- computes; only the hash of a token is stored.
use remote_agent_connector.Prelude.{
  ℕ, String, Bool, ◌&&◌, Option, none, some, [], ◌∷◌, ◌++◌, ◌==◌, leb, eqb, not, is_some, is_none,
  if◌then◌else◌,
}
use remote_agent_connector.Prelude.Table.{first, update_where, count_where}
use remote_agent_connector.Store.{Store, TokenRow, Datetime, Timestamp, as_timestamp, after_seconds}

pub data TokenStatus : Type 0 where
  invalid connector_mismatch consumed expired accepted : TokenStatus

module _ (sha256 : String → String) where
  -- The row that is inserted for a token.
  unfoldable pub issued_token : String → String → String → ℕ → Datetime → String → TokenRow
  issued_token connector_id profile label expires_in now raw_token = record {
    token_hash = sha256 raw_token;
    connector_id = connector_id;
    capability_profile = profile;
    display_label = label;
    expires_at = as_timestamp (after_seconds now expires_in);
    consumed_at = none;
    created_at = as_timestamp now;
  }

  -- The row of a token, by its hash.
  unfoldable pub token_row : String → Store → Option TokenRow
  token_row raw_token s =
      first (λ (r : TokenRow). r.token_hash == sha256 raw_token) s.enrollment_tokens

  -- The token that `secrets.token_urlsafe` draws is an argument. `none` is the `IntegrityError` of a
  -- second row under one hash.
  unfoldable pub issue_enrollment_token :
      String → String → String → ℕ → Datetime → String → Store → Option String × Store
  unfolding token_row issued_token
  issue_enrollment_token connector_id profile label expires_in now raw_token s =
      if is_some (token_row raw_token s) then (none, s) else (
        some raw_token,
        record s {
          enrollment_tokens =
              s.enrollment_tokens
              ++ issued_token connector_id profile label expires_in now raw_token ∷ [];
        },
      )

  -- The statement's own guard: the row of this hash, and not consumed yet.
  unfoldable pub unconsumed : String → TokenRow → Bool
  unconsumed raw_token r = (r.token_hash == sha256 raw_token) && is_none r.consumed_at

  unfoldable pub mark_consumed : Timestamp → TokenRow → TokenRow
  mark_consumed current r = record r { consumed_at = some current }

  -- The tests on the fetched row, in the code's order.
  unfoldable pub check_token :
      Option TokenRow
      → String
      → String
      → Timestamp
      → Store
      → (TokenStatus × Option TokenRow) × Store
  unfolding unconsumed mark_consumed
  check_token none raw_token connector_id current s = ((invalid, none), s)
  check_token (some row) raw_token connector_id current s =
      if not (row.connector_id == connector_id)
      then ((connector_mismatch, none), s)
      else if is_some row.consumed_at
      then ((consumed, none), s)
      else if leb row.expires_at current
      then ((expired, none), s)
      else let after : Store = record s {
        enrollment_tokens =
            update_where (unconsumed raw_token) (mark_consumed current) s.enrollment_tokens;
      } in
        if not (eqb (count_where (unconsumed raw_token) s.enrollment_tokens) 1)
        then ((consumed, none), after)
        else ((accepted, some row), after)

  unfoldable pub consume_enrollment_token_detailed :
      String → String → Datetime → Store → (TokenStatus × Option TokenRow) × Store
  unfolding check_token token_row
  consume_enrollment_token_detailed raw_token connector_id now s =
      check_token (token_row raw_token s) raw_token connector_id (as_timestamp now) s

  unfoldable pub accepted_record : TokenStatus × Option TokenRow → Option TokenRow
  accepted_record (accepted, row) = row
  accepted_record (status, row) = none

  unfoldable pub consume_enrollment_token :
      String → String → Datetime → Store → Option TokenRow × Store
  unfolding consume_enrollment_token_detailed accepted_record
  consume_enrollment_token raw_token connector_id now s =
      let (answer, s') = consume_enrollment_token_detailed raw_token connector_id now s in
      (accepted_record answer, s')
