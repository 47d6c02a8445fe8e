-- ===== src/Prelude/Table.antt =====
-- A table of the database: its rows in insertion order, and the statements that the program runs
-- on it. A row's key test is a predicate on rows.
use mathlib.Core.Path.{◌≡◌, refl, subst}
use mathlib.Core.Logic.{inl, inr}
use mathlib.Core.Bool.{Bool, true, false}
use mathlib.Core.Option
use mathlib.Core.Option.{Option, none, some}
use mathlib.Core.List.{List, [], ◌∷◌, ◌++◌}
use Prim.Native.Nat.{ℕ, zero, suc, ◌+◌}
use native.Mathlib.Omega.{arith}
use remote_agent_connector.Prelude.Tests.{if◌then◌else◌, Bool-cases}

abbrev pub All {ℓ κ} : {A : Type ℓ} → (A → Type κ) → List A → Type κ
All P [] = Unit
All P (x ∷ xs) = P x × All P xs

module _ {ℓ} {R : Type ℓ} where
  -- `SELECT … WHERE p` with `fetchone`.
  unfoldable pub first : (R → Bool) → List R → Option R
  first p [] = none
  first p (r ∷ rows) = if p r then some r else first p rows

  -- `SELECT … WHERE p` with `fetchall`.
  unfoldable pub select : (R → Bool) → List R → List R
  select p [] = []
  select p (r ∷ rows) = let rest = select p rows in if p r then r ∷ rest else rest

  -- `UPDATE … SET f WHERE p`.
  unfoldable pub update_where : (R → Bool) → (R → R) → List R → List R
  update_where p f [] = []
  update_where p f (r ∷ rows) = (if p r then f r else r) ∷ update_where p f rows

  -- `DELETE … WHERE p`.
  unfoldable pub delete_where : (R → Bool) → List R → List R
  delete_where p [] = []
  delete_where p (r ∷ rows) = let rest = delete_where p rows in if p r then rest else r ∷ rest

  -- The `rowcount` of an update.
  unfoldable pub count_where : (R → Bool) → List R → ℕ
  count_where p [] = 0
  count_where p (r ∷ rows) = (if p r then 1 else 0) + count_where p rows

  insert_by : (R → R → Bool) → R → List R → List R
  insert_by before r [] = r ∷ []
  insert_by before r (x ∷ rows) = if before r x then r ∷ x ∷ rows else x ∷ insert_by before r rows

  -- `ORDER BY`: a stable sort by a test "comes no later than".
  unfoldable pub order_by : (R → R → Bool) → List R → List R
  unfolding insert_by
  order_by before [] = []
  order_by before (r ∷ rows) = insert_by before r (order_by before rows)

  -- `LIMIT n`.
  unfoldable pub take : ℕ → List R → List R
  take zero rows = []
  take (suc n) [] = []
  take (suc n) (r ∷ rows) = r ∷ take n rows

  pub first-append :
      (p : R → Bool) (rows : List R) (r : R)
      → first p (rows ++ r ∷ [])
        ≡ elim (first p rows) [ none ↦ if p r then some r else none | some x ↦ some x ]
  unfolding first
  first-append p [] r = ground arith
  first-append p (x ∷ rows) r = ground (arith, first-append p rows r)

  -- What a row answers after an update that leaves the looked-up key alone.
  pub first-update_where :
      (p q : R → Bool) (f : R → R) (rows : List R)
      → ((r : R) → p (f r) ≡ p r)
      → first p (update_where q f rows) ≡ Option.map (λ r. if q r then f r else r) (first p rows)
  unfolding first update_where
  first-update_where p q f [] h = refl
  first-update_where p q f (x ∷ rows) h = ground (arith, h x, first-update_where p q f rows h)

  pub first-update_self :
      (p : R → Bool) (row old : R) (rows : List R)
      → p row ≡ true
      → first p rows ≡ some old
      → first p (update_where p (λ _. row) rows) ≡ some row
  unfolding first update_where
  first-update_self p row old [] t h = absurd (ground arith)
  first-update_self p row old (x ∷ rows) t h = ground (arith, t, first-update_self p row old rows t)

  pub first_sound : (p : R → Bool) (rows : List R) (r : R) → first p rows ≡ some r → p r ≡ true
  unfolding first
  first_sound p [] r h = ground arith
  first_sound p (x ∷ rows) r h = ground (arith, first_sound p rows r)

  -- A deleted row is not found.
  pub first-delete_where :
      (p q : R → Bool) (rows : List R)
      → ((r : R) → p r ≡ true → q r ≡ true)
      → first p (delete_where q rows) ≡ none
  unfolding first delete_where
  first-delete_where p q [] h = refl
  first-delete_where p q (x ∷ rows) h = ground (arith, h x, first-delete_where p q rows h)

  -- A row that is not deleted is found as before.
  pub first-delete_other :
      (p q : R → Bool) (rows : List R)
      → ((r : R) → p r ≡ true → q r ≡ false)
      → first p (delete_where q rows) ≡ first p rows
  unfolding first delete_where
  first-delete_other p q [] h = refl
  first-delete_other p q (x ∷ rows) h = ground (arith, h x, first-delete_other p q rows h)

  pub select-All : (p : R → Bool) (rows : List R) → All (λ r. p r ≡ true) (select p rows)
  unfolding select
  select-All p [] = tt
  select-All p (x ∷ rows) = elim (Bool-cases (p x)) [
    | inl t ↦ rw t (t, select-All p rows)
    | inr t ↦ rw t (select-All p rows)
  ]

  -- Nothing is selected where nothing passes.
  pub select-none :
      (p : R → Bool) (rows : List R) → All (λ r. p r ≡ false) rows → select p rows ≡ []
  unfolding select
  select-none p [] h = refl
  select-none p (x ∷ rows) h = rw (h.0, select-none p rows h.1)

  module _ {κ} (P : R → Type κ) where
    -- What holds of the selected rows holds of every row that passes.
    pub All-select :
        (p : R → Bool) (rows : List R) → All P (select p rows) → All (λ r. p r ≡ true → P r) rows
    unfolding select
    All-select p [] h = tt
    All-select p (x ∷ rows) h = elim (Bool-cases (p x)) [
      | inl t ↦
          let h' : P x × All P (select p rows) =
            subst (λ b. All P (if b then x ∷ select p rows else select p rows)) t h in
          (λ _. h'.0, All-select p rows h'.1)
      | inr t ↦
          let h' : All P (select p rows) =
            subst (λ b. All P (if b then x ∷ select p rows else select p rows)) t h in
          (λ (u : p x ≡ true). absurd (ground arith), All-select p rows h')
    ]

    pub select-keeps : (p : R → Bool) (rows : List R) → All P rows → All P (select p rows)
    unfolding select
    select-keeps p [] h = tt
    select-keeps p (x ∷ rows) h = elim (Bool-cases (p x)) [
      | inl t ↦ rw t (h.0, select-keeps p rows h.1)
      | inr t ↦ rw t (select-keeps p rows h.1)
    ]

    pub first-All :
        (p : R → Bool) (rows : List R) (r : R) → All P rows → first p rows ≡ some r → P r
    unfolding first
    first-All p [] r h e = absurd (ground arith)
    first-All p (x ∷ rows) r h e = elim (Bool-cases (p x)) [
      | inl t ↦ ground (arith, h.0)
      | inr t ↦ first-All p rows r h.1 (ground arith)
    ]

    pub All-append : (rows : List R) (r : R) → All P rows → P r → All P (rows ++ r ∷ [])
    All-append [] r h k = (k, tt)
    All-append (x ∷ rows) r h k = (h.0, All-append rows r h.1 k)

module _ {ℓ κ} {R : Type ℓ} (P Q : R → Type κ) where
  pub All-update_where :
      (p : R → Bool) (f : R → R) (rows : List R)
      → ((r : R) → P r → p r ≡ true → Q (f r))
      → ((r : R) → P r → p r ≡ false → Q r)
      → All P rows
      → All Q (update_where p f rows)
  unfolding update_where
  All-update_where p f [] hit miss h = tt
  All-update_where p f (x ∷ rows) hit miss h = elim (Bool-cases (p x)) [
    | inl t ↦ rw t (hit x h.0 t, All-update_where p f rows hit miss h.1)
    | inr t ↦ rw t (miss x h.0 t, All-update_where p f rows hit miss h.1)
  ]

  pub All-delete_where :
      (p : R → Bool) (rows : List R)
      → ((r : R) → P r → p r ≡ false → Q r)
      → All P rows
      → All Q (delete_where p rows)
  unfolding delete_where
  All-delete_where p [] miss h = tt
  All-delete_where p (x ∷ rows) miss h = elim (Bool-cases (p x)) [
    | inl t ↦ rw t (All-delete_where p rows miss h.1)
    | inr t ↦ rw t (miss x h.0 t, All-delete_where p rows miss h.1)
  ]

  pub All-imp : (rows : List R) → ((r : R) → P r → Q r) → All P rows → All Q rows
  All-imp [] f h = tt
  All-imp (x ∷ rows) f h = (f x h.0, All-imp rows f h.1)
