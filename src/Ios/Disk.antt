-- ===== src/Ios/Disk.antt =====
-- The files that the iOS client keeps. The next of `faults` says whether the next write fails; a failed
-- write leaves the file as it was. A file that is missing cannot be read.
use lantern_client.Prelude.{String, Bool, true, false, Option, List, [], ◌∷◌, Dict, lookup, insert}

pub record Disk : Type 0 where
  pub files : Dict String
  pub faults : List Bool

abbrev pub write_at : List Bool → String → String → Disk → Bool × Disk
write_at [] name content d = (true, record d { files = insert name content d.files })
write_at (false ∷ fs) name content d =
    (true, record { files = insert name content d.files; faults = fs })
write_at (true ∷ fs) name content d = (false, record d { faults = fs })

-- `os.WriteFile`; the flag says that it succeeded.
unfoldable pub write_file : String → String → Disk → Bool × Disk
write_file name content d = write_at d.faults name content d

-- `os.ReadFile`.
abbrev pub read_file : String → Disk → Option String
read_file name d = lookup name d.files
