-- ===== src/Prelude/Distinct.antt =====
-- Primary keys: the rows of a table have distinct keys, and what that gives to its statements.
use Prim.Native.String.{String}
use mathlib.Core.Path.{◌≡◌, refl, subst}
use mathlib.Core.Logic.{inl, inr}
use mathlib.Core.Bool.{Bool, true, false, ◌&&◌}
use mathlib.Core.Option.{none, some}
use mathlib.Core.List.{List, [], ◌∷◌, ◌++◌}
use native.Mathlib.Omega.{arith}
use text.Mathlib.Text.{◌==◌}
use text.Mathlib.TextEquality.{eq_iff}
use remote_agent_connector.Prelude.Tests.{if◌then◌else◌, Bool-cases}
use remote_agent_connector.Prelude.Table.{
  All, All-append, All-update_where, All-delete_where, first, update_where, delete_where,
  count_where,
}

module _ {ℓ} {R : Type ℓ} (key : R → String) where
  abbrev pub Absent : String → List R → Type 0
  Absent k = All (λ r. (key r == k) ≡ false)

  abbrev pub Distinct : List R → Type 0
  Distinct [] = Unit
  Distinct (r ∷ rows) = Absent (key r) rows × Distinct rows

  abbrev pub has : String → R → Bool
  has k r = key r == k

  Absent-of_first : (k : String) (rows : List R) → first (has k) rows ≡ none → Absent k rows
  unfolding first
  Absent-of_first k [] h = tt
  Absent-of_first k (x ∷ rows) h = (ground arith, Absent-of_first k rows (ground arith))

  count-Absent :
      (k : String) (q : R → Bool) (rows : List R)
      → Absent k rows
      → count_where (λ r. has k r && q r) rows ≡ 0
  unfolding count_where
  count-Absent k q [] h = refl
  count-Absent k q (x ∷ rows) h = ground (arith, h.0, count-Absent k q rows h.1)

  -- An update of the row found by its key touches one row.
  pub count-Distinct :
      (k : String) (q : R → Bool) (rows : List R) (x : R)
      → Distinct rows
      → first (has k) rows ≡ some x
      → q x ≡ true
      → count_where (λ r. has k r && q r) rows ≡ 1
  unfolding first count_where
  count-Distinct k q [] x d h t = absurd (ground arith)
  count-Distinct k q (y ∷ rows) x d h t = elim (Bool-cases (key y == k)) [
    | inl e ↦ ground (
      arith,
      eq_iff (key y) k,
      count-Absent k q rows (subst (λ z. Absent z rows) ((eq_iff (key y) k).0 e) d.0),
    )
    | inr e ↦ ground (arith, count-Distinct k q rows x d.1)
  ]

  first-Absent :
      (k : String) (q : R → Bool) (rows : List R)
      → Absent k rows
      → first (λ r. has k r && q r) rows ≡ none
  unfolding first
  first-Absent k q [] h = refl
  first-Absent k q (x ∷ rows) h = ground (arith, h.0, first-Absent k q rows h.1)

  -- A further test on the row of a key.
  pub first-and :
      (k : String) (q : R → Bool) (rows : List R) (x : R)
      → Distinct rows
      → first (has k) rows ≡ some x
      → first (λ r. has k r && q r) rows ≡ (if q x then some x else none)
  unfolding first
  first-and k q [] x d h = absurd (ground arith)
  first-and k q (y ∷ rows) x d h = elim (Bool-cases (key y == k)) [
    | inl e ↦
        ground
          (arith, first-Absent k q rows (subst (λ z. Absent z rows) ((eq_iff (key y) k).0 e) d.0))
    | inr e ↦ ground (arith, first-and k q rows x d.1)
  ]

  pub Distinct-append :
      (rows : List R) (r : R)
      → Distinct rows
      → first (has (key r)) rows ≡ none
      → Distinct (rows ++ r ∷ [])
  unfolding first
  Distinct-append [] r d h = (tt, tt)
  Distinct-append (x ∷ rows) r d h = (
    All-append (λ y. (key y == key x) ≡ false) rows r d.0
        (ground (arith, eq_iff (key r) (key x), eq_iff (key x) (key r))),
    Distinct-append rows r d.1 (ground arith),
  )

  pub Distinct-update_where :
      (p : R → Bool) (f : R → R) (rows : List R)
      → ((r : R) → p r ≡ true → key (f r) ≡ key r)
      → Distinct rows
      → Distinct (update_where p f rows)
  unfolding update_where
  Distinct-update_where p f [] same d = tt
  Distinct-update_where p f (x ∷ rows) same d = elim (Bool-cases (p x)) [
    | inl t ↦ rw t (rw (same x t) (rest, Distinct-update_where p f rows same d.1))
    | inr t ↦ rw t (rest, Distinct-update_where p f rows same d.1)
  ]
    where
      rest : Absent (key x) (update_where p f rows)
      rest =
          All-update_where (λ y. (key y == key x) ≡ false) (λ y. (key y == key x) ≡ false) p f rows
            (λ r h t. rw (same r t) h) (λ r h _. h) d.0

  pub Distinct-delete_where :
      (p : R → Bool) (rows : List R) → Distinct rows → Distinct (delete_where p rows)
  unfolding delete_where
  Distinct-delete_where p [] d = tt
  Distinct-delete_where p (x ∷ rows) d = elim (Bool-cases (p x)) [
    | inl t ↦ rw t (Distinct-delete_where p rows d.1)
    | inr t ↦ rw t (
      All-delete_where (λ y. (key y == key x) ≡ false) (λ y. (key y == key x) ≡ false) p rows
          (λ r h _. h) d.0,
      Distinct-delete_where p rows d.1,
    )
  ]
