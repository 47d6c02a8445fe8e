-- ===== src/Tests/Migrating.antt =====
-- Two migrations of an empty database, whose statements are logged.
use remote_agent_connector.Database
use remote_agent_connector.Prelude.{
  arith, String, true, none, some, List, [], ◌∷◌, ◌++◌, ◌≡◌, refl, ◌==◌, contains, if◌then◌else◌,
}
use remote_agent_connector.Prelude.Table.{All}
use remote_agent_connector.Database.{Script, Driver, split_statements, migrate}
use remote_agent_connector.Database.Migrated.{
  migrate_twice, CreatesOnce, Records, Keeps, contains-append, contains_last,
}
use remote_agent_connector.Tests.Caller.{checks}

-- The versions on record, and the log.
abbrev Log : Type 0
Log = List String × List String

abbrev log : Driver Log
log = record {
  create_migrations = λ s. some s;
  versions = λ s. some s.0;
  execute = λ statement s. if statement == "FAIL;" then none else some (s.0, s.1 ++ statement ∷ []);
  record_version = λ x s. some (s.0 ++ x ∷ [], s.1);
}

log-CreatesOnce : CreatesOnce log
log-CreatesOnce s vs h = refl

log-Records : Records log
log-Records x s t vs wrote read =
    (vs ++ x ∷ [], ground (arith, wrote, read), contains_last x vs, λ y k. contains-append y x vs k)

abbrev files : List Script
files =
    ("001.sql", "CREATE TABLE a; INSERT INTO a VALUES (';');") ∷ ("002.sql", "DROP TABLE a") ∷ []

log-Keeps : (q : String) (s t : Log) → log.execute q s ≡ some t → Keeps log s t
log-Keeps q s t ran vs read = (vs, ground (arith, ran, read), λ x k. k)

-- No statement of any files touches the versions.
All-Keeps :
    (qs : List String) → All (λ q. (s t : Log) → log.execute q s ≡ some t → Keeps log s t) qs
All-Keeps [] = tt
All-Keeps (q ∷ qs) = (log-Keeps q, All-Keeps qs)

abbrev fresh : Log
fresh = ([], [])

abbrev migrated : Log
migrated = (
  "001.sql" ∷ "002.sql" ∷ [],
  "CREATE TABLE a;" ∷ "INSERT INTO a VALUES (';');" ∷ "DROP TABLE a" ∷ [],
)

once : migrate log files fresh ≡ (true, migrated)
unfolding checks Database.end_statement Database.read_char Database.read_chars
    Database.split_statements Database.execute_all Database.apply_files Database.apply_all
    Database.transaction Database.migrate contains
once = refl

-- The body of a trigger is one statement.
trigger_whole :
    split_statements "create trigger t begin delete from a; end; select 1;"
    ≡ "create trigger t begin delete from a; end;" ∷ "select 1;" ∷ []
unfolding checks Database.end_statement Database.read_char Database.read_chars
    Database.split_statements
trigger_whole = refl

migrate_twice_example :
    ((ws : List String) × (log.versions migrated ≡ some ws)
      × All (λ (f : Script). contains f.0 ws ≡ true) files)
    × (migrate log files migrated ≡ (true, migrated))
migrate_twice_example =
    migrate_twice log files fresh migrated log-CreatesOnce log-Records
      (All-Keeps _, (All-Keeps _, tt)) once
