-- ===== src/LogFile.antt =====
-- muzi/base/log_file.h and log_file.cc, with UnlockedWriteFile of muzi/base/file_utils.h: the log's
-- file, and when a new one is begun. A file's content includes what stdio still buffers. The name
-- that GetLogFileName() makes of a time, and the results of time(2), are arguments; times are
-- seconds. Writes and fopen(3) are taken to succeed.
pub mod Rolling
mod Examples
use muzi.Prelude.{
  ℕ, ◌+◌, ◌-◌, ◌*◌, Bool, true, false, List, [], ◌++◌, length, leb, ◌==◌, if◌then◌else◌,
}

-- kRollSize, kCheckEveryN, kFlushIntervalSeconds and kRollIntervalSeconds.
abbrev pub roll_size : ℕ
roll_size = 32 * 1024 * 1024

abbrev pub check_every_n : ℕ
check_every_n = 1024

abbrev pub flush_interval_seconds : ℕ
flush_interval_seconds = 3

abbrev pub roll_interval_seconds : ℕ
roll_interval_seconds = 60 * 60 * 24

-- `file` is the name of the open file, `files` the content of each file by its name.
pub record LogFile : Type 0 where
  pub written_bytes : ℕ
  pub last_roll : ℕ
  pub last_flush : ℕ
  pub count : ℕ
  pub file : ℕ
  pub files : ℕ → List ℕ

abbrev pub with_content : (ℕ → List ℕ) → ℕ → List ℕ → ℕ → List ℕ
with_content files name content n = if n == name then content else files n

module _ (file_name : ℕ → ℕ) where
  -- RollFile() at the time `now`; fopen(3) with "w" empties the file.
  unfoldable pub roll_file : ℕ → LogFile → LogFile
  roll_file now l = record l {
    last_roll = now;
    last_flush = now;
    file = file_name now;
    files = with_content l.files (file_name now) [];
  }

  -- LogFile()
  unfoldable pub init : (ℕ → List ℕ) → ℕ → LogFile
  init files now = roll_file now (record {
    written_bytes = 0;
    last_roll = 0;
    last_flush = 0;
    count = 0;
    file = 0;
    files = files;
  })

  -- UnlockedWriteFile::Append()
  unfoldable pub write : List ℕ → LogFile → LogFile
  write msg l = record l { files = with_content l.files l.file (l.files l.file ++ msg) }

  -- The check of every kCheckEveryN calls, at the time `now`; RollFile() reads the time again.
  unfoldable pub check : ℕ → ℕ → LogFile → LogFile
  check now later l =
      if leb roll_interval_seconds (now - l.last_roll)
      then roll_file later l
      else if leb flush_interval_seconds (now - l.last_flush)
      then record l { last_flush = now }
      else l

  unfoldable pub append : List ℕ → ℕ → ℕ → LogFile → LogFile
  append msg now later l =
      let l' = write msg l in
      let written = l.written_bytes + length msg in
      if leb roll_size written
      then roll_file later (record l' { written_bytes = 0 })
      else if leb check_every_n (l.count + 1)
      then check now later (record l' { written_bytes = written; count = 0 })
      else record l' { written_bytes = written; count = l.count + 1 }
