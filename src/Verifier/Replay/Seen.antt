-- ===== src/Verifier/Replay/Seen.antt =====
-- remote_agent_connector/app_assertion.py, `_reject_replay`: the lemmas on the replay cache.
use mathlib.Core.List.{append_assoc}
use remote_agent_connector.Prelude.{
  ℕ, suc, ◌+◌, ◌≤◌, ◌<◌, String, true, false, List, [], ◌∷◌, ◌++◌, ◌≡◌, refl, arith, eq_refl,
  length, ltb, is_some, Bool-cases, inl, inr,
}
use remote_agent_connector.Prelude.Dict.{get}
use remote_agent_connector.Prelude.Int.{ℤ, pos, leb_ℤ}
use remote_agent_connector.Verifier.{Verifier}
use remote_agent_connector.Verifier.Replay.{unexpired, evict, reject_replay}

abbrev pub Entries : Type 0
Entries = List (String × ℤ)

pub length-append : (xs ys : Entries) → length (xs ++ ys) ≡ length xs + length ys
length-append [] ys = omega arith
length-append (x ∷ xs) ys = omega (arith, length-append xs ys)

length-evict : (limit : ℕ) (xs : Entries) → length (evict limit xs) ≤ limit
unfolding evict
length-evict limit [] = omega arith
length-evict limit (x ∷ xs) = ground (arith, length-evict limit xs)

length-unexpired : (current : ℕ) (xs : Entries) → length (unexpired current xs) ≤ length xs
unfolding unexpired
length-unexpired current [] = omega arith
length-unexpired current (x ∷ xs) = ground (arith, length-unexpired current xs)

-- The cache never holds more ids than its limit.
pub seen_bounded :
    (id : String) (expiry : ℤ) (current : ℕ) (v : Verifier)
    → length v.seen ≤ v.seen_limit
    → (length (reject_replay id expiry current v).1.seen
        ≤ (reject_replay id expiry current v).1.seen_limit)
unfolding reject_replay
seen_bounded id expiry current v h =
    let live = unexpired current v.seen in
    ground (
      arith,
      h,
      length-unexpired current v.seen,
      length-evict v.seen_limit (live ++ (id, expiry) ∷ []),
    )

-- Where an id is held with at most so many entries behind it.
abbrev pub Held : String → ℤ → ℕ → Entries → Type 0
Held id expiry n xs =
    (before : Entries) × (after : Entries) × (xs ≡ before ++ (id, expiry) ∷ after)
    × (length after ≤ n)

pub get-Held :
    (id : String) (expiry : ℤ) (before after : Entries)
    → is_some (get id (before ++ (id, expiry) ∷ after)) ≡ true
unfolding get
get-Held id expiry [] after = ground (arith, eq_refl id)
get-Held id expiry ((j, x) ∷ before) after = ground (arith, get-Held id expiry before after)

unexpired-append :
    (current : ℕ) (xs ys : Entries)
    → unexpired current (xs ++ ys) ≡ unexpired current xs ++ unexpired current ys
unfolding unexpired
unexpired-append current [] ys = refl
unexpired-append current (x ∷ xs) ys = ground (arith, unexpired-append current xs ys)

pub unexpired-Held :
    (id : String) (expiry : ℤ) (n current : ℕ) (xs : Entries)
    → leb_ℤ expiry (pos current) ≡ false
    → Held id expiry n xs
    → Held id expiry n (unexpired current xs)
unfolding unexpired
unexpired-Held id expiry n current xs live (before, after, e, le) = (
  unexpired current before,
  unexpired current after,
  ground (arith, e, live, unexpired-append current before ((id, expiry) ∷ after)),
  omega (arith, le, length-unexpired current after),
)

-- Eviction spares an entry with fewer entries behind it than the limit.
pub evict-Held :
    (id : String) (expiry : ℤ) (limit : ℕ) (before after : Entries)
    → length after < limit
    → (before' : Entries) × (evict limit (before ++ (id, expiry) ∷ after)
        ≡ before' ++ (id, expiry) ∷ after)
unfolding evict
evict-Held id expiry limit [] after lt = ([], ground arith)
evict-Held id expiry limit (x ∷ before) after lt =
    elim (Bool-cases (ltb limit (suc (length (before ++ (id, expiry) ∷ after))))) [
      | inl over ↦
          let (before', e) = evict-Held id expiry limit before after lt in
          (before', ground (arith, over, e))
      | inr fits ↦ (x ∷ before, ground (arith, fits))
    ]

-- One more submission puts at most one more entry behind it.
pub step-Held :
    (id other : String) (expiry e : ℤ) (n current : ℕ) (v : Verifier)
    → leb_ℤ expiry (pos current) ≡ false
    → suc n < v.seen_limit
    → Held id expiry n v.seen
    → Held id expiry (suc n) (reject_replay other e current v).1.seen
unfolding reject_replay
step-Held id other expiry e n current v live lt held =
    let (before, after, same, le) = unexpired-Held id expiry n current v.seen live held in
    elim (Bool-cases (is_some (get other (unexpired current v.seen)))) [
      | inl seen ↦ (before, after, ground (arith, seen, same), omega (arith, le))
      | inr fresh ↦
          let back = after ++ (other, e) ∷ [] in
          let size = length-append after ((other, e) ∷ []) in
          let (before', kept) =
            evict-Held id expiry v.seen_limit before back (omega (arith, le, lt, size)) in
          (
            before',
            back,
            ground (
              arith,
              fresh,
              same,
              kept,
              append_assoc before ((id, expiry) ∷ after) ((other, e) ∷ []),
            ),
            omega (arith, le, size),
          )
    ]
