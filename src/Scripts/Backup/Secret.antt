-- ===== src/Scripts/Backup/Secret.antt =====
-- The password stays out of the command (backend/app/scripts/db_backup.py).
use eval_ledger.Base.{ℕ, ◌≡◌, Option, some, List, [], Text, arith}
use eval_ledger.Scripts.Backup.{
  ParsedDsn, Arguments, Effect, nothing, prints, runs, build_pg_dump_command, dump,
}

-- What anyone sees of an effect: the command, but not the environment that it runs in.
unfoldable pub visible : Effect → List Text
visible nothing = []
visible (prints words) = words
visible (runs cmd password) = cmd

-- Two connections that differ in the password alone give the same command and the same output, and end
-- in the same way.
pub dump_hides_password :
    (args : Arguments) (run : List Text → Option ℕ) (dsn : ParsedDsn) (other : Text)
    → let a = dump args run (some dsn) in
      let b = dump args run (some (record dsn { password = other })) in
      (a.0 ≡ b.0) × (visible a.1 ≡ visible b.1)
unfolding dump build_pg_dump_command visible
dump_hides_password args run dsn other = ground arith
