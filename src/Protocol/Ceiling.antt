-- ===== src/Protocol/Ceiling.antt =====
-- remote_agent_connector/protocol.py: the capability profiles against the verbs that change state.
use remote_agent_connector.Prelude.{
  ◌≡◌, refl, subst, String, Bool, true, false, not, ◌&&◌, List, [], ◌∷◌, ◌==◌, arith, eq_iff,
  contains, Bool-cases, inl, inr,
}
use remote_agent_connector.Prelude.Texts.{replace_dots}
use remote_agent_connector.Protocol.Profiles.{
  read_only, read_write, full_agent, capabilities_for_profile, mutating_relay_tools,
}

-- Every text of the list passes the test.
every : (String → Bool) → List String → Bool
every test [] = true
every test (x ∷ r) = test x && every test r

every_sound :
    (test : String → Bool) (l : List String) (x : String)
    → every test l ≡ true
    → contains x l ≡ true
    → test x ≡ true
unfolding every contains
every_sound test [] x h m = absurd (ground arith)
every_sound test (y ∷ r) x h m = elim (Bool-cases (y == x)) [
  | inl e ↦ subst (λ z. test z ≡ true) ((eq_iff y x).0 e) (ground arith)
  | inr e ↦ every_sound test r x (ground arith) (ground arith)
]

-- The read-write profile grants what the read-only profile grants, and the full profile grants what
-- the read-write profile grants.
pub profiles_nested :
    (c : String)
    → (contains c (capabilities_for_profile read_only) ≡ true
        → contains c (capabilities_for_profile read_write) ≡ true)
      × (contains c (capabilities_for_profile read_write) ≡ true
          → contains c (capabilities_for_profile full_agent) ≡ true)
unfolding every contains capabilities_for_profile
profiles_nested c = (
  every_sound (λ x. contains x (capabilities_for_profile read_write))
      (capabilities_for_profile read_only) c refl,
  every_sound (λ x. contains x (capabilities_for_profile full_agent))
      (capabilities_for_profile read_write) c refl,
)

-- A tool that changes state is in no capability of the read-only profile, and is in the full one.
pub read_only_mutates_nothing :
    (tool : String)
    → contains tool mutating_relay_tools ≡ true
    → (contains (replace_dots tool) (capabilities_for_profile read_only) ≡ false)
      × (contains (replace_dots tool) (capabilities_for_profile full_agent) ≡ true)
unfolding every contains capabilities_for_profile mutating_relay_tools replace_dots
read_only_mutates_nothing tool m =
    let both =
      every_sound
        (λ x.
          not (contains (replace_dots x) (capabilities_for_profile read_only))
          && contains (replace_dots x) (capabilities_for_profile full_agent))
        mutating_relay_tools tool refl m in
    ground arith
