-- ===== src/Tests/Names.antt =====
-- The theorem on the names of files, at two names.
use flog_fs.Base.{ℕ, ◌≡◌, ◌↔◌, true, arith, List, [], ◌∷◌}
use flog_fs.Structs.{max_fname_len}
use flog_fs.Inode.{strncmp_equal}
use flog_fs.Open.{name_field}
use flog_fs.Open.Names.{IsString, strncmp_equal-name_field}
use flog_fs.Tests.Scenario.{power_on}

abbrev log : List ℕ
log = b'l' ∷ b'o' ∷ b'g' ∷ []

abbrev logs : List ℕ
logs = b'l' ∷ b'o' ∷ b'g' ∷ b's' ∷ []

log-IsString : IsString log
log-IsString = (omega arith, (omega arith, (omega arith, tt)))

logs-IsString : IsString logs
logs-IsString = (omega arith, (omega arith, (omega arith, (omega arith, tt))))

strncmp_equal-name_field_example :
    (strncmp_equal max_fname_len log (name_field power_on logs) ≡ true) ↔ (log ≡ logs)
strncmp_equal-name_field_example =
    strncmp_equal-name_field power_on log logs log-IsString logs-IsString (omega arith)
