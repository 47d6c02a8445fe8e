-- ===== src/Store/Challenges.antt =====
-- remote_agent_connector/store.py: the challenges of the relay handshake.
use remote_agent_connector.Prelude.{
  ℕ, String, Bool, true, false, ◌&&◌, ◌||◌, Option, none, some, [], ◌∷◌, ◌++◌, ◌==◌, leb, not,
  is_some, is_none, if◌then◌else◌,
}
use remote_agent_connector.Prelude.Table.{first, update_where}
use remote_agent_connector.Store.{
  Store, ChallengeRow, Datetime, Timestamp, as_timestamp, after_seconds,
}

pub record Challenge : Type 0 where
  pub challenge_id : String
  pub challenge : String

module _ (sha256 : String → String) where
  unfoldable pub issued_challenge : ℕ → Datetime → Challenge → ChallengeRow
  issued_challenge expires_in now drawn = record {
    challenge_id = drawn.challenge_id;
    challenge_hash = sha256 drawn.challenge;
    expires_at = as_timestamp (after_seconds now expires_in);
    consumed_at = none;
    created_at = as_timestamp now;
  }

  unfoldable pub challenge_row : String → Store → Option ChallengeRow
  challenge_row challenge_id s =
      first (λ (r : ChallengeRow). r.challenge_id == challenge_id) s.relay_challenges

  -- The id that `uuid4` draws and the text that `token_urlsafe` draws are arguments; `none` is the
  -- `IntegrityError` of an id that is there already.
  unfoldable pub create_challenge : ℕ → Datetime → Challenge → Store → Option Challenge × Store
  unfolding challenge_row issued_challenge
  create_challenge expires_in now drawn s =
      if is_some (challenge_row drawn.challenge_id s) then (none, s) else (
        some drawn,
        record s {
          relay_challenges = s.relay_challenges ++ issued_challenge expires_in now drawn ∷ [];
        },
      )

  unfoldable pub challenge_refused : Option ChallengeRow → String → Timestamp → Bool
  challenge_refused none challenge current = true
  challenge_refused (some row) challenge current =
      is_some row.consumed_at
      || leb row.expires_at current
      || not (row.challenge_hash == sha256 challenge)

  unfoldable pub unused : String → ChallengeRow → Bool
  unused challenge_id r = (r.challenge_id == challenge_id) && is_none r.consumed_at

  unfoldable pub mark_used : Timestamp → ChallengeRow → ChallengeRow
  mark_used current r = record r { consumed_at = some current }

  unfoldable pub consume_challenge : String → String → Datetime → Store → Bool × Store
  unfolding challenge_refused challenge_row unused mark_used
  consume_challenge challenge_id challenge now s =
      if challenge_refused (challenge_row challenge_id s) challenge (as_timestamp now)
      then (false, s)
      else (
        true,
        record s {
          relay_challenges =
              update_where (unused challenge_id) (mark_used (as_timestamp now)) s.relay_challenges;
        },
      )
