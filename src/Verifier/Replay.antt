-- ===== src/Verifier/Replay.antt =====
-- remote_agent_connector/app_assertion.py: `_reject_replay`.
pub mod Seen
pub mod Window
use remote_agent_connector.Prelude.{
  ℕ, suc, String, Bool, true, false, not, List, [], ◌∷◌, ◌++◌, ◌==◌, length, ltb, is_some,
  if◌then◌else◌,
}
use remote_agent_connector.Prelude.Dict.{get}
use remote_agent_connector.Prelude.Int.{ℤ, pos, leb_ℤ}
use remote_agent_connector.Relay.{assertion_error, Result, ok, err}
use remote_agent_connector.Verifier.{Verifier}

-- The entries that have not expired.
unfoldable pub unexpired : ℕ → List (String × ℤ) → List (String × ℤ)
unexpired current [] = []
unexpired current ((id, expiry) ∷ rest) =
    let r = unexpired current rest in if leb_ℤ expiry (pos current) then r else (id, expiry) ∷ r

-- `while len(self._seen) > self.seen_limit: self._seen.popitem(last=False)`.
unfoldable pub evict : ℕ → List (String × ℤ) → List (String × ℤ)
evict limit [] = []
evict limit (x ∷ rest) = if ltb limit (suc (length rest)) then evict limit rest else x ∷ rest

unfoldable pub reject_replay : String → ℤ → ℕ → Verifier → Result (Unit {0}) × Verifier
unfolding unexpired evict
reject_replay assertion_id expires_at current v =
    let live = unexpired current v.seen in
    if is_some (get assertion_id live)
    then (err (assertion_error "app_assertion_replayed"), record v { seen = live })
    else (ok tt, record v { seen = evict v.seen_limit (live ++ (assertion_id, expires_at) ∷ []) })
