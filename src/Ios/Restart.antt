-- ===== src/Ios/Restart.antt =====
-- The place of the client over a restart: internalsdk/ios/geolookup/geolookup.go keeps it in a file.
use lantern_client.Prelude.{
  ◌≡◌, refl, ◌∙◌, String, Bool, List, true, false, Option, none, some, [], Dict, lookup, insert,
  lookup-insert, eq_refl, ◌==◌,
}
use lantern_client.Ios.Disk.{write_file}
use lantern_client.Ios.Geo.{
  GeoInfo, Geo, get_country, is_new, set_geo_info, enable_persistence, run_turn,
}

-- A process that has just begun, with the files that are there.
abbrev pub started : Dict String → Geo
started files = record {
  current = none;
  watchers = [];
  persist_to_file = "";
  requested = false;
  disk = record { files = files; faults = [] };
}

-- The value that a file is decoded into.
abbrev pub from_file : GeoInfo
from_file = record { ip = ""; city = none; from_disk = true }

module _ (encode : GeoInfo → String) (decode : GeoInfo → String → Option GeoInfo) (file : String)
    (is_named : (file == "") ≡ false) where
  -- A process that has opened the file.
  known : GeoInfo → Dict String → Geo
  known gi files = record (started files) { current = some gi; persist_to_file = file }

  stored_lem :
      (g : Geo) (files : Dict String) (gi : GeoInfo)
      → g.persist_to_file ≡ file
      → g.disk ≡ record { files = files; faults = [] }
      → is_new gi (record g { requested = false }) ≡ true
      → (run_turn encode decode gi g).disk.files ≡ insert file (encode gi) files
  unfolding run_turn set_geo_info write_file
  stored_lem g files gi named disk new = rw (new, named, is_named, disk) refl

  opened_lem :
      (gi : GeoInfo) (files : Dict String)
      → decode from_file (encode gi) ≡ some gi
      → lookup file files ≡ some (encode gi)
      → enable_persistence encode decode file (started files) ≡ some (known gi files)
  unfolding enable_persistence set_geo_info get_country known
  opened_lem gi files decoded kept = rw (kept, decoded) refl

  again_lem :
      (gi again : GeoInfo) (files : Dict String)
      → again.ip ≡ gi.ip
      → gi.from_disk ≡ false
      → again.from_disk ≡ false
      → (ws : List Bool) (requested : Bool)
      → run_turn encode decode again
          (record (known gi files) { watchers = ws; requested = requested })
        ≡ record (known gi files) { watchers = ws }
  unfolding run_turn is_new known
  again_lem gi again files same first second ws requested =
      rw (same, eq_refl gi.ip, first, second) refl

  -- Where JSON gives back all the fields of the place that it wrote, and no write fails: the place that one process
  -- looked up and stored is what the next process knows as soon as it opens the file, marked as that of
  -- the network and not of the disk. So whatever watchers it has by then, told or not, when it looks up
  -- the same address again it neither takes up the new place nor writes to a watcher.
  pub restart_lem :
      (g : Geo) (files : Dict String) (gi again : GeoInfo)
      → decode from_file (encode gi) ≡ some gi
      → g.persist_to_file ≡ file
      → g.disk ≡ record { files = files; faults = [] }
      → is_new gi (record g { requested = false }) ≡ true
      → again.ip ≡ gi.ip
      → gi.from_disk ≡ false
      → again.from_disk ≡ false
      → let stored = (run_turn encode decode gi g).disk.files in
        let next = record (started stored) { current = some gi; persist_to_file = file } in
        (enable_persistence encode decode file (started stored) ≡ some next)
        × ((ws : List Bool) (requested : Bool)
            → run_turn encode decode again (record next { watchers = ws; requested = requested })
              ≡ record next { watchers = ws })
  unfolding known
  restart_lem g files gi again decoded named disk new same first second =
      rw (stored_lem g files gi named disk new) (
        opened_lem gi (insert file (encode gi) files) decoded
            (lookup-insert file file (encode gi) files ∙ rw (eq_refl file) refl),
        again_lem gi again (insert file (encode gi) files) same first second,
      )
