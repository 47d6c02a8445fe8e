-- ===== src/Store/SingleUse.antt =====
-- remote_agent_connector/store.py: the lemmas on enrollment tokens and relay challenges.
use remote_agent_connector.Prelude.{
  ℕ, ◌<◌, String, true, false, none, some, [], ◌∷◌, ◌++◌, ◌==◌, ◌≡◌, refl, arith, eq_iff, eq_refl,
  is_none, if◌then◌else◌, ltb, Option-cases, inl, inr,
}
use remote_agent_connector.Prelude.Table.{
  first, update_where, first_sound, first-update_where, first-append, count_where,
}
use remote_agent_connector.Prelude.Distinct.{Distinct, count-Distinct, Distinct-append}
use remote_agent_connector.Store.{
  Store, TokenRow, ChallengeRow, Datetime, as_timestamp, after_seconds,
}
use remote_agent_connector.Store.Tokens.{
  accepted, consumed, connector_mismatch, issue_enrollment_token, issued_token, token_row,
  consume_enrollment_token_detailed, unconsumed, mark_consumed,
}
use remote_agent_connector.Store.Challenges.{
  Challenge, create_challenge, issued_challenge, unused, mark_used, challenge_row,
  consume_challenge,
}

module _ (sha256 : String → String) where
  abbrev TokensDistinct : Store → Type 0
  TokensDistinct s = Distinct (λ (r : TokenRow). r.token_hash) s.enrollment_tokens

  one_update :
      (raw_token : String) (s : Store) (row : TokenRow)
      → TokensDistinct s
      → token_row sha256 raw_token s ≡ some row
      → row.consumed_at ≡ none
      → count_where (unconsumed sha256 raw_token) s.enrollment_tokens ≡ 1
  unfolding token_row unconsumed
  one_update raw_token s row d found fresh =
      count-Distinct (λ (r : TokenRow). r.token_hash) (sha256 raw_token)
        (λ (r : TokenRow). is_none r.consumed_at) s.enrollment_tokens row d found
        (ground (arith, fresh))

  consume_usable :
      (raw_token connector_id : String) (now : Datetime) (s : Store) (row : TokenRow)
      → Distinct (λ (r : TokenRow). r.token_hash) s.enrollment_tokens
      → token_row sha256 raw_token s ≡ some row
      → row.connector_id ≡ connector_id
      → row.consumed_at ≡ none
      → as_timestamp now < row.expires_at
      → (consume_enrollment_token_detailed sha256 raw_token connector_id now s).0
        ≡ (accepted, some row)
  unfolding consume_enrollment_token_detailed
  consume_usable raw_token connector_id now s row d found c fresh later =
      ground (
        arith,
        found,
        eq_iff row.connector_id connector_id,
        one_update raw_token s row d found fresh,
      )

  consumed_store : String → Datetime → Store → Store
  consumed_store raw_token now s = record s {
    enrollment_tokens =
        update_where (unconsumed sha256 raw_token) (mark_consumed sha256 (as_timestamp now))
          s.enrollment_tokens;
  }

  -- What an accepting call did.
  accepted_state :
      (raw_token connector_id : String) (now : Datetime) (s s' : Store) (row : TokenRow)
      → consume_enrollment_token_detailed sha256 raw_token connector_id now s
        ≡ ((accepted, some row), s')
      → (token_row sha256 raw_token s ≡ some row)
        × (row.connector_id ≡ connector_id)
        × (row.consumed_at ≡ none)
        × (s' ≡ consumed_store raw_token now s)
  unfolding consume_enrollment_token_detailed consumed_store
  accepted_state raw_token connector_id now s s' row h =
      elim (Option-cases (token_row sha256 raw_token s)) [
        | inl e ↦ absurd (ground arith)
        | inr (found, e) ↦ (
          ground arith,
          ground (arith, eq_iff found.connector_id connector_id),
          ground arith,
          ground arith,
        )
      ]

  token_row-consumed_store :
      (raw_token : String) (now : Datetime) (s : Store) (row : TokenRow)
      → token_row sha256 raw_token s ≡ some row
      → row.consumed_at ≡ none
      → token_row sha256 raw_token (consumed_store raw_token now s)
        ≡ some (record row { consumed_at = some (as_timestamp now) })
  unfolding token_row consumed_store unconsumed mark_consumed
  token_row-consumed_store raw_token now s row found fresh = ground (
    arith,
    found,
    fresh,
    first_sound (λ (r : TokenRow). r.token_hash == sha256 raw_token) s.enrollment_tokens row,
    first-update_where (λ (r : TokenRow). r.token_hash == sha256 raw_token)
        (unconsumed sha256 raw_token) (mark_consumed sha256 (as_timestamp now)) s.enrollment_tokens
        (λ r. refl),
  )

  -- Once a token was accepted, every later use of it is refused and changes nothing: as consumed for
  -- its connector, and as a mismatch for any other.
  pub consume_twice :
      (raw_token connector_id later_id : String) (now later : Datetime) (s s' : Store)
      (row : TokenRow)
      → consume_enrollment_token_detailed sha256 raw_token connector_id now s
        ≡ ((accepted, some row), s')
      → consume_enrollment_token_detailed sha256 raw_token later_id later s'
        ≡ ((if connector_id == later_id then consumed else connector_mismatch, none), s')
  unfolding consume_enrollment_token_detailed
  consume_twice raw_token connector_id later_id now later s s' row h =
      let (found, mine, fresh, state) = accepted_state raw_token connector_id now s s' row h in
      let used = token_row-consumed_store raw_token now s row found fresh in
      rw (state, used) (ground (arith, mine))

  token_row-issue :
      (raw_token : String) (s : Store) (row : TokenRow)
      → row.token_hash ≡ sha256 raw_token
      → token_row sha256 raw_token s ≡ none
      → token_row sha256 raw_token
          (record s { enrollment_tokens = s.enrollment_tokens ++ row ∷ [] })
        ≡ some row
  unfolding token_row
  token_row-issue raw_token s row e h = ground (
    arith,
    h,
    eq_iff row.token_hash (sha256 raw_token),
    first-append (λ (r : TokenRow). r.token_hash == sha256 raw_token) s.enrollment_tokens row,
  )

  -- A token that was issued is accepted until it expires, with the profile and the label that it was
  -- issued with.
  pub consume-issue :
      (connector_id label raw_token profile : String) (seconds : ℕ) (now later : Datetime)
      (s s' : Store)
      → Distinct (λ (r : TokenRow). r.token_hash) s.enrollment_tokens
      → issue_enrollment_token sha256 connector_id profile label seconds now raw_token s
        ≡ (some raw_token, s')
      → as_timestamp later < as_timestamp (after_seconds now seconds)
      → (row : TokenRow) × ((consume_enrollment_token_detailed sha256 raw_token connector_id later
            s').0
          ≡ (accepted, some row))
        × (row.capability_profile ≡ profile)
        × (row.display_label ≡ label)
  unfolding issue_enrollment_token
  consume-issue connector_id label raw_token profile seconds now later s s' d issued early =
      let row = issued_token sha256 connector_id profile label seconds now raw_token in
      let absent : token_row sha256 raw_token s ≡ none = ground arith in
      let stored : s' ≡ record s { enrollment_tokens = s.enrollment_tokens ++ row ∷ [] } =
        ground arith in
      (
        row,
        rw stored (
            consume_usable raw_token connector_id later _ row
              (Distinct-append (λ (r : TokenRow). r.token_hash) s.enrollment_tokens row d absent)
              (token_row-issue raw_token s row refl absent) refl refl early),
        refl,
        refl,
      )

  challenge_row-used :
      (challenge_id : String) (now : Datetime) (s : Store) (row : ChallengeRow)
      → challenge_row sha256 challenge_id s ≡ some row
      → row.consumed_at ≡ none
      → first
          (λ (r : ChallengeRow). r.challenge_id == challenge_id)
          (update_where
            (unused sha256 challenge_id)
            (mark_used sha256 (as_timestamp now))
            s.relay_challenges)
        ≡ some (record row { consumed_at = some (as_timestamp now) })
  unfolding challenge_row unused mark_used
  challenge_row-used challenge_id now s row found fresh = ground (
    arith,
    found,
    fresh,
    first_sound (λ (r : ChallengeRow). r.challenge_id == challenge_id) s.relay_challenges row,
    first-update_where (λ (r : ChallengeRow). r.challenge_id == challenge_id)
        (unused sha256 challenge_id) (mark_used sha256 (as_timestamp now)) s.relay_challenges
        (λ r. refl),
  )

  -- A challenge that was accepted is refused from then on, whatever text comes with its id, and the
  -- refusal changes nothing.
  pub consume_challenge_twice :
      (challenge_id challenge later_text : String) (now later : Datetime) (s s' : Store)
      → consume_challenge sha256 challenge_id challenge now s ≡ (true, s')
      → consume_challenge sha256 challenge_id later_text later s' ≡ (false, s')
  unfolding consume_challenge
  consume_challenge_twice challenge_id challenge later_text now later s s' h =
      elim (Option-cases (challenge_row sha256 challenge_id s)) [
        | inl e ↦ absurd (ground arith)
        | inr (row, e) ↦ ground (arith, challenge_row-used challenge_id now s row)
      ]

  -- A fresh challenge is accepted until it expires, with its own text.
  pub consume-create :
      (drawn : Challenge) (seconds : ℕ) (now later : Datetime) (s s' : Store)
      → create_challenge sha256 seconds now drawn s ≡ (some drawn, s')
      → (consume_challenge sha256 drawn.challenge_id drawn.challenge later s').0
        ≡ ltb (as_timestamp later) (as_timestamp (after_seconds now seconds))
  unfolding consume_challenge create_challenge
  consume-create drawn seconds now later s s' h = ground (
    arith,
    eq_refl drawn.challenge_id,
    eq_refl (sha256 drawn.challenge),
    first-append (λ (r : ChallengeRow). r.challenge_id == drawn.challenge_id) s.relay_challenges
        (issued_challenge sha256 seconds now drawn),
  )
