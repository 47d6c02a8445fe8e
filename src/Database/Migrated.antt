-- ===== src/Database/Migrated.antt =====
-- remote_agent_connector/db.py, `migrate`: the lemmas on a second run.
use remote_agent_connector.Prelude.{
  String, true, some, List, [], ◌∷◌, ◌++◌, ◌==◌, ◌≡◌, refl, ap, subst, ◌∙◌, arith, eq_refl,
  contains, Option-cases, Bool-cases, inl, inr,
}
use remote_agent_connector.Prelude.Table.{All}
use remote_agent_connector.Database.{
  Script, Driver, execute_all, apply_files, apply_all, transaction, migrate, split_statements,
}

pub contains-append :
    (x y : String) (xs : List String) → contains x xs ≡ true → contains x (xs ++ y ∷ []) ≡ true
unfolding contains
contains-append x y [] h = absurd (ground (arith, h))
contains-append x y (z ∷ xs) h = elim (Bool-cases (z == x)) [
  | inl e ↦ ground (arith, e)
  | inr e ↦ ground (arith, e, h, contains-append x y xs (ground (arith, e, h)))
]

pub contains_last : (x : String) (xs : List String) → contains x (xs ++ x ∷ []) ≡ true
unfolding contains
contains_last x [] = ground (arith, eq_refl x)
contains_last x (z ∷ xs) = ground (arith, contains_last x xs)

module _ {S : Type 0} (driver : Driver S) where
  -- The later database still has the versions that the earlier one has on record.
  abbrev pub Keeps : S → S → Type 0
  Keeps s t =
      (vs : List String)
      → driver.versions s ≡ some vs
      → (ws : List String) × (driver.versions t ≡ some ws)
        × ((x : String) → contains x vs ≡ true → contains x ws ≡ true)

  -- `CREATE TABLE IF NOT EXISTS` leaves a table that is there as it is.
  abbrev pub CreatesOnce : Type 0
  CreatesOnce =
      (s : S) (vs : List String) → driver.versions s ≡ some vs → driver.create_migrations s ≡ some s

  -- A version that is inserted is there afterwards, with those that were there.
  abbrev pub Records : Type 0
  Records =
      (x : String) (s t : S) (vs : List String)
      → driver.record_version x s ≡ some t
      → driver.versions s ≡ some vs
      → (ws : List String) × (driver.versions t ≡ some ws)
        × (contains x ws ≡ true)
        × ((y : String) → contains y vs ≡ true → contains y ws ≡ true)

  -- The statements of a file remove no version.
  abbrev pub Harmless : Script → Type 0
  Harmless f = All (λ q. (s t : S) → driver.execute q s ≡ some t → Keeps s t) (split_statements f.1)

  execute_all-Keeps :
      (qs : List String) (s t : S)
      → All (λ q. (s t : S) → driver.execute q s ≡ some t → Keeps s t) qs
      → execute_all driver qs s ≡ some t
      → Keeps s t
  unfolding execute_all
  execute_all-Keeps [] s t safe h vs found =
      (vs, subst (λ x. driver.versions x ≡ some vs) (ground (arith, h)) found, λ x k. k)
  execute_all-Keeps (q ∷ qs) s t safe h vs found = elim (Option-cases (driver.execute q s)) [
    | inl n ↦ absurd (ground (arith, h, n))
    | inr (u, e) ↦
        let (us, read, kept) = safe.0 s u e vs found in
        let (ws, read', kept') = execute_all-Keeps qs u t safe.1 (ground (arith, h, e)) us read in
        (ws, read', λ x k. kept' x (kept x k))
  ]

  -- The loop keeps the versions on record, and its files are on record after it.
  apply_files-records :
      (applied vs : List String) (files : List Script) (s s' : S)
      → Records
      → All Harmless files
      → driver.versions s ≡ some vs
      → ((x : String) → contains x applied ≡ true → contains x vs ≡ true)
      → apply_files driver applied files s ≡ some s'
      → (ws : List String) × (driver.versions s' ≡ some ws)
        × ((x : String) → contains x vs ≡ true → contains x ws ≡ true)
        × All (λ (f : Script). contains f.0 ws ≡ true) files
  unfolding apply_files
  apply_files-records applied vs [] s s' records safe found known h =
      (vs, subst (λ x. driver.versions x ≡ some vs) (ground (arith, h)) found, λ x k. k, tt)
  apply_files-records applied vs ((name, text) ∷ files) s s' records safe found known h =
      elim (Bool-cases (contains name applied)) [
        | inl e ↦
            let (ws, read, kept, all) =
              apply_files-records applied vs files s s' records safe.1 found known
                (ground (arith, h, e)) in
            (ws, read, kept, (kept name (known name e), all))
        | inr e ↦ elim (Option-cases (execute_all driver (split_statements text) s)) [
          | inl n ↦ absurd (ground (arith, h, e, n))
          | inr (t, ran) ↦ elim (Option-cases (driver.record_version name t)) [
            | inl n ↦ absurd (ground (arith, h, e, ran, n))
            | inr (u, wrote) ↦
                let (ts, read, kept) =
                  execute_all-Keeps (split_statements text) s t safe.0 ran vs found in
                let (us, read', own, kept') = records name t u ts wrote read in
                let (ws, read'', kept'', all) =
                  apply_files-records applied us files u s' records safe.1 read'
                    (λ x k. kept' x (kept x (known x k))) (ground (arith, h, e, ran, wrote)) in
                (ws, read'', λ x k. kept'' x (kept' x (kept x k)), (kept'' name own, all))
          ]
        ]
      ]

  apply_files_nothing :
      (applied : List String) (files : List Script) (s : S)
      → All (λ (f : Script). contains f.0 applied ≡ true) files
      → apply_files driver applied files s ≡ some s
  unfolding apply_files
  apply_files_nothing applied [] s h = refl
  apply_files_nothing applied ((name, text) ∷ files) s (k, h) =
      ground (arith, k, apply_files_nothing applied files s h)

  -- Where the driver creates the table of versions once and records what it inserts, and no statement
  -- of the files removes a version: a migration that succeeds has each of its files on record, and a
  -- second one over the same files succeeds and changes nothing.
  pub migrate_twice :
      (files : List Script) (s s' : S)
      → CreatesOnce
      → Records
      → All Harmless files
      → migrate driver files s ≡ (true, s')
      → ((ws : List String) × (driver.versions s' ≡ some ws)
          × All (λ (f : Script). contains f.0 ws ≡ true) files)
        × (migrate driver files s' ≡ (true, s'))
  unfolding migrate transaction apply_all
  migrate_twice files s s' once records safe h = elim (Option-cases (driver.create_migrations s)) [
    | inl n ↦ absurd (ground (arith, h, n))
    | inr (t, made) ↦ elim (Option-cases (driver.versions t)) [
      | inl n ↦ absurd (ground (arith, h, made, n))
      | inr (applied, read) ↦ elim (Option-cases (apply_files driver applied files t)) [
        | inl n ↦ absurd (ground (arith, h, made, read, n))
        | inr (u, done) ↦
            let same : u ≡ s' = ground (arith, h, made, read, done) in
            let (ws, found, _, all) =
              apply_files-records applied applied files t s' records safe read (λ x k. k)
                (done ∙ ap some same) in
            (
              (ws, found, all),
              ground (arith, once s' ws found, found, apply_files_nothing ws files s' all),
            )
      ]
    ]
  ]
