-- ===== src/LogFile/Rolling.antt =====
-- What a roll keeps of the files, and what it loses.
use muzi.Prelude.{
  ℕ, ◌+◌, ◌-◌, ◌<◌, ◌≤◌, ◌≡◌, refl, true, List, [], ◌++◌, length, leb, ◌||◌, ◌&&◌, Bool, ◌==◌,
  arith, if◌then◌else◌,
}
use muzi.LogFile.{
  LogFile, roll_size, check_every_n, roll_interval_seconds, roll_file, write, check, append,
}

module _ (file_name : ℕ → ℕ) where
  -- When a file is begun: the open one is full, or the kCheckEveryN-th call since the last check
  -- finds it a day old.
  abbrev pub rolls : List ℕ → ℕ → LogFile → Bool
  rolls msg now l =
      leb roll_size (l.written_bytes + length msg)
      || (leb check_every_n (l.count + 1) && leb roll_interval_seconds (now - l.last_roll))

  -- The content of the file `n` behind the message.
  abbrev pub with_message : List ℕ → LogFile → ℕ → List ℕ
  with_message msg l n = if n == l.file then l.files l.file ++ msg else l.files n

  -- A roll by size in the second in which the open file was begun empties this file: the message
  -- and all that was written to it is lost.
  pub append-roll_file :
      (msg : List ℕ) (now later : ℕ) (l : LogFile)
      → roll_size ≤ l.written_bytes + length msg
      → file_name later ≡ l.file
      → (append file_name msg now later l).files l.file ≡ []
  unfolding append write roll_file
  append-roll_file msg now later l full same =
      let yes : leb roll_size (l.written_bytes + length msg) ≡ true = ground arith in
      let name : (l.file == file_name later) ≡ true = ground (arith, same) in rw (yes, name) refl

  -- The counters stay below the size of a file and the number of calls between two checks.
  pub append_counters :
      (msg : List ℕ) (now later : ℕ) (l : LogFile)
      → l.count < check_every_n
      → ((append file_name msg now later l).written_bytes < roll_size)
        × ((append file_name msg now later l).count < check_every_n)
  unfolding append write check roll_file
  append_counters msg now later l h = (ground arith, ground arith)
