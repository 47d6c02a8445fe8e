-- ===== src/Verifier/Replay/Window.antt =====
-- remote_agent_connector/app_assertion.py, `_reject_replay`: the lemmas on a history of submissions.
use remote_agent_connector.Prelude.{
  ℕ, suc, max, ◌≤◌, ◌+◌, ◌<◌, String, false, List, [], ◌∷◌, ◌++◌, ◌≡◌, ◌≢◌, refl, arith, eq_iff,
  length, is_some, none, Bool-cases, inl, inr,
}
use remote_agent_connector.Prelude.Dict.{get}
use remote_agent_connector.Prelude.Table.{All}
use remote_agent_connector.Prelude.Int.{ℤ, pos, pos_part, leb_ℤ}
use remote_agent_connector.Relay.{assertion_error, ok, err}
use remote_agent_connector.Verifier.{TrustAnchor, Verifier, start}
use remote_agent_connector.Verifier.Replay.{unexpired, evict, reject_replay}
use remote_agent_connector.Verifier.Replay.Seen.{
  Entries, seen_bounded, Held, length-append, get-Held, unexpired-Held, evict-Held, step-Held,
}

-- An assertion that reaches the replay check.
pub record Submission : Type 0 where
  pub assertion_id : String
  pub expires_at : ℤ
  pub current : ℕ

unfoldable pub submit_all : List Submission → Verifier → Verifier
submit_all [] v = v
submit_all (x ∷ rest) v = submit_all rest (reject_replay x.assertion_id x.expires_at x.current v).1

seen_limit-reject_replay :
    (id : String) (e : ℤ) (current : ℕ) (v : Verifier)
    → (reject_replay id e current v).1.seen_limit ≡ v.seen_limit
unfolding reject_replay
seen_limit-reject_replay id e current v = ground arith

submit_all-Held :
    (id : String) (expiry : ℤ) (n : ℕ) (xs : List Submission) (v : Verifier)
    → All (λ (x : Submission). leb_ℤ expiry (pos x.current) ≡ false) xs
    → n + length xs < v.seen_limit
    → Held id expiry n v.seen
    → Held id expiry (n + length xs) (submit_all xs v).seen
unfolding submit_all
submit_all-Held id expiry n [] v live lt (before, after, e, le) =
    (before, after, e, omega (arith, le))
submit_all-Held id expiry n (x ∷ xs) v live lt held =
    let same = seen_limit-reject_replay x.assertion_id x.expires_at x.current v in
    let held' =
      step-Held id x.assertion_id expiry x.expires_at n x.current v live.0 (omega (arith, lt))
        held in
    let (before, after, e, le) =
      submit_all-Held id expiry (suc n) xs (reject_replay x.assertion_id x.expires_at x.current v).1
        live.1 (omega (arith, lt, same)) held' in
    (before, after, e, omega (arith, le))

accepted-Held :
    (id : String) (expiry : ℤ) (current : ℕ) (v : Verifier)
    → (reject_replay id expiry current v).0 ≡ ok tt
    → 0 < v.seen_limit
    → Held id expiry 0 (reject_replay id expiry current v).1.seen
unfolding reject_replay
accepted-Held id expiry current v h pos_limit =
    elim (Bool-cases (is_some (get id (unexpired current v.seen)))) [
      | inl seen ↦ absurd (ground (arith, h, seen))
      | inr fresh ↦
          let (before, kept) =
            evict-Held id expiry v.seen_limit (unexpired current v.seen) []
              (omega (arith, pos_limit)) in
          (before, [], ground (arith, fresh, kept), omega arith)
    ]

-- An assertion id that was accepted is refused until it expires, as long as fewer submissions than
-- the cache's limit came between, all of them before its expiry.
pub replay_refused :
    (id : String) (expiry expiry' : ℤ) (current later : ℕ) (xs : List Submission) (v : Verifier)
    → (reject_replay id expiry current v).0 ≡ ok tt
    → length xs < v.seen_limit
    → All (λ (x : Submission). leb_ℤ expiry (pos x.current) ≡ false) xs
    → leb_ℤ expiry (pos later) ≡ false
    → (reject_replay id expiry' later (submit_all xs (reject_replay id expiry current v).1)).0
      ≡ err (assertion_error "app_assertion_replayed")
replay_refused id expiry expiry' current later xs v accepted few live late =
    let v1 = (reject_replay id expiry current v).1 in
    let v2 = submit_all xs v1 in
    let same = seen_limit-reject_replay id expiry current v in
    let held =
      submit_all-Held id expiry 0 xs v1 live (omega (arith, few, same))
        (accepted-Held id expiry current v accepted (omega (arith, few))) in
    let (before, after, e, _) = unexpired-Held id expiry (0 + length xs) later v2.seen late held in
    unfold reject_replay in ground (arith, e, get-Held id expiry before after)

get-append :
    (id j : String) (e : ℤ) (xs : Entries)
    → get id xs ≡ none
    → j ≢ id
    → get id (xs ++ (j, e) ∷ []) ≡ none
unfolding get
get-append id j e [] h ne = ground (arith, ne, eq_iff j id)
get-append id j e ((k, x) ∷ xs) h ne = ground (arith, h, get-append id j e xs)

get-unexpired :
    (id : String) (current : ℕ) (xs : Entries)
    → get id xs ≡ none
    → get id (unexpired current xs) ≡ none
unfolding get unexpired
get-unexpired id current [] h = refl
get-unexpired id current ((k, x) ∷ xs) h = ground (arith, h, get-unexpired id current xs)

evict_full : (xs : Entries) → evict (length xs) xs ≡ xs
unfolding evict
evict_full [] = refl
evict_full (x ∷ xs) = ground arith

evict_one :
    (x y : String × ℤ) (xs : Entries) → evict (suc (length xs)) ((x ∷ xs) ++ y ∷ []) ≡ xs ++ y ∷ []
unfolding evict
evict_one x y xs =
    let size = length-append xs (y ∷ []) in ground (arith, size, evict_full (xs ++ y ∷ []))

-- Where the cache is full of ids that have not expired, one further id drives out the oldest, which
-- is then accepted a second time within its lifetime.
pub evicted_accepted :
    (id other : String) (e e' e2 : ℤ) (current : ℕ) (rest : Entries) (v : Verifier)
    → v.seen ≡ (id, e) ∷ rest
    → length v.seen ≡ v.seen_limit
    → unexpired current v.seen ≡ v.seen
    → get id rest ≡ none
    → get other v.seen ≡ none
    → other ≢ id
    → (reject_replay id e' current (reject_replay other e2 current v).1).0 ≡ ok tt
unfolding reject_replay
evicted_accepted id other e e' e2 current rest v seen full live once fresh ne =
    let out : evict v.seen_limit (v.seen ++ (other, e2) ∷ []) ≡ rest ++ (other, e2) ∷ [] =
      ground (arith, seen, full, evict_one (id, e) (other, e2) rest) in
    let gone =
      get-unexpired id current (rest ++ (other, e2) ∷ []) (get-append id other e2 rest once ne) in
    ground (arith, live, fresh, out, gone)

submit_all_bounded :
    (xs : List Submission) (v : Verifier)
    → length v.seen ≤ v.seen_limit
    → length (submit_all xs v).seen ≤ v.seen_limit
unfolding submit_all
submit_all_bounded [] v h = h
submit_all_bounded (x ∷ xs) v h =
    let same = seen_limit-reject_replay x.assertion_id x.expires_at x.current v in
    let rest =
      submit_all_bounded xs (reject_replay x.assertion_id x.expires_at x.current v).1
        (seen_bounded x.assertion_id x.expires_at x.current v h) in
    omega (arith, rest, same)

-- However many assertions reach a verifier after its start, its cache holds no more ids than the
-- limit that it was given, or than one where that limit is below one.
pub submit_all-start :
    (anchor : TrustAnchor) (connector_id : String) (skew limit : ℤ) (xs : List Submission)
    → length (submit_all xs (start anchor connector_id skew limit)).seen ≤ max 1 (pos_part limit)
unfolding start
submit_all-start anchor connector_id skew limit xs =
    submit_all_bounded xs (start anchor connector_id skew limit) (omega arith)
