-- ===== src/LogFile/Examples.antt =====
-- Tests of the log file, and its theorems at concrete files.
use muzi.Prelude.{◌≡◌, refl, [], ◌∷◌}
use muzi.LogFile.{LogFile, append, write}

abbrev begun : LogFile
begun = record {
  written_bytes = 0;
  last_roll = 100;
  last_flush = 100;
  count = 0;
  file = 100;
  files = λ n. [];
}

append-begun : (append (λ t. t) (7 ∷ []) 101 101 begun).files 100 ≡ 7 ∷ []
unfolding append write
append-begun = refl

-- The second in which the file was begun has not passed when it is full.
abbrev nearly_full : LogFile
nearly_full = record begun { written_bytes = 33554431 }
