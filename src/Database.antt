-- ===== src/Database.antt =====
-- remote_agent_connector/db.py: migrations, in a transaction. What a statement does to the database is
-- the driver's.
pub mod Migrated
use Prim.Native.Char.{Char, code}
use Prim.Native.String
use remote_agent_connector.Prelude.{
  ℕ, ◌-◌, String, Bool, true, false, ◌&&◌, ◌||◌, not, leb, eqb, Option, none, some, List, [], ◌∷◌,
  ◌++◌, ◌==◌, is_some, contains, if◌then◌else◌,
}
use remote_agent_connector.Prelude.Texts.{strip, after}

-- `str.upper`, as far as the letters of "CREATE TRIGGER" and "END;" go.
upper_char : Char → Char
upper_char c =
    if eqb (code c) b'c'
    then "C"
    else if eqb (code c) b'r'
    then "R"
    else if eqb (code c) b'e'
    then "E"
    else if eqb (code c) b'a'
    then "A"
    else if eqb (code c) b't'
    then "T"
    else if eqb (code c) b'i'
    then "I"
    else if eqb (code c) 0x131
    then "I"
    else if eqb (code c) b'g'
    then "G"
    else if eqb (code c) b'n'
    then "N"
    else if eqb (code c) b'd'
    then "D"
    else c

upper : String → String
unfolding upper_char
upper String.[] = ""
upper (String.◌∷◌ c s) = String.◌∷◌ (upper_char c) (upper s)

-- `s.endswith(suffix)`.
ends_with : String → String → Bool
ends_with suffix String.[] = suffix == ""
ends_with suffix (String.◌∷◌ c s) = String.◌∷◌ c s == suffix || ends_with suffix s

pub record Split : Type 0 where
  pub statements : List String
  pub current : String
  pub quote : Option Char
  pub trigger_statement : Bool

is_quote : Char → Bool
is_quote c = eqb (code c) b'\'' || eqb (code c) b'"'

-- At a semicolon outside quotes.
unfoldable pub end_statement : Split → Split
unfolding upper ends_with strip after
end_statement x =
    let statement = strip x.current in
    let trigger = x.trigger_statement || is_some (after "CREATE TRIGGER" (upper statement)) in
    if trigger && not (ends_with "END;" (upper statement))
    then record x { trigger_statement = trigger }
    else record {
      statements = if statement == "" then x.statements else x.statements ++ statement ∷ [];
      current = "";
      quote = none;
      trigger_statement = false;
    }

unfoldable pub read_char : Char → Split → Split
unfolding end_statement is_quote
read_char c x =
    let y : Split = record x { current = String.◌++◌ x.current (String.◌∷◌ c "") } in
    elim x.quote [
      | some q ↦ if eqb (code c) (code q) then record y { quote = none } else y
      | none ↦
          if is_quote c
          then record y { quote = some c }
          else if eqb (code c) b';'
          then end_statement y
          else y
    ]

unfoldable pub read_chars : String → Split → Split
unfolding read_char
read_chars String.[] x = x
read_chars (String.◌∷◌ c s) x = read_chars s (read_char c x)

unfoldable pub split_statements : String → List String
unfolding read_chars strip
split_statements script =
    let x =
      read_chars script
        (record { statements = []; current = ""; quote = none; trigger_statement = false }) in
    if strip x.current == "" then x.statements else x.statements ++ strip x.current ∷ []

-- A migration file: its name and its text.
abbrev pub Script : Type 0
Script = String × String

-- What the driver's statements do to the database; `none` is an exception.
pub record Driver (S : Type 0) : Type 0 where
  -- `CREATE TABLE IF NOT EXISTS schema_migrations`
  pub create_migrations : S → Option S
  -- `SELECT version FROM schema_migrations`
  pub versions : S → Option (List String)
  pub execute : String → S → Option S
  -- `INSERT INTO schema_migrations`
  pub record_version : String → S → Option S

module _ {S : Type 0} (driver : Driver S) where
  unfoldable pub execute_all : List String → S → Option S
  execute_all [] s = some s
  execute_all (x ∷ xs) s = elim (driver.execute x s) [ none ↦ none | some t ↦ execute_all xs t ]

  -- The loop over the files, for the versions that were applied before it.
  unfoldable pub apply_files : List String → List Script → S → Option S
  unfolding execute_all
  apply_files applied [] s = some s
  apply_files applied ((name, text) ∷ files) s =
      if contains name applied
      then apply_files applied files s
      else elim (execute_all (split_statements text) s) [
        | none ↦ none
        | some t ↦ elim (driver.record_version name t) [
          | none ↦ none
          | some u ↦ apply_files applied files u
        ]
      ]

  unfoldable pub apply_all : List Script → S → Option S
  unfolding apply_files
  apply_all files s = elim (driver.create_migrations s) [
    | none ↦ none
    | some t ↦ elim (driver.versions t) [ none ↦ none | some applied ↦ apply_files applied files t ]
  ]

  -- A transaction: an exception, which is `false` here, rolls back.
  unfoldable pub transaction : (S → Option S) → S → Bool × S
  transaction body s = elim (body s) [ none ↦ (false, s) | some t ↦ (true, t) ]

  -- The files of the directory, which is there, in the order of their names.
  unfoldable pub migrate : List Script → S → Bool × S
  unfolding apply_all transaction
  migrate files s = transaction (apply_all files) s
