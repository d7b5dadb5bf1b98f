-- ===== src/Session/Access.antt =====
-- What the user decided on an app survives the lists of apps that internalsdk/session_model.go reads later.
use lantern_client.Prelude.{
  ◌≡◌, refl, ap, ◌∙◌, inl, inr, String, Bool, true, false, Option, some, none, List, [], ◌∷◌, Dict,
  lookup, insert, lookup-insert, eq_refl, eq_iff, Bool-cases, Option-cases, if◌then◌else◌, ◌==◌,
}
use lantern_client.Session.Db.{Db, DbValue, AppData, app, mutate, write_at}
use lantern_client.Session.Apps.{
  app_path, put_absent, is_stored, put_at, update_apps_data, as_app, get_app, update_app_data,
}
use lantern_client.Session.Stored.{first_fails, will_fail, mutate-map}

insert-Kept :
    (path other : String) (new v : DbValue) (m : Dict DbValue)
    → lookup other m ≡ some v
    → lookup other (if is_stored (lookup path m) then m else insert path new m) ≡ some v
unfolding is_stored
insert-Kept path other new v m kept = elim (Bool-cases (path == other)) [
  | inl same ↦ rw ((eq_iff path other).0 same, kept) kept
  | inr different ↦ elim (Option-cases (lookup path m)) [
    | inl absent ↦ rw (absent) (lookup-insert path other new m ∙ rw (different) kept)
    | inr (old, present) ↦ rw (present) kept
  ]
]

put_absent-Kept :
    (apps : List AppData) (path : String) (v : DbValue) (m : Dict DbValue)
    → lookup path m ≡ some v
    → lookup path (put_absent apps m) ≡ some v
unfolding put_absent
put_absent-Kept [] path v m kept = kept
put_absent-Kept (a ∷ as') path v m kept =
    let here = app_path a.package_name in
    put_absent-Kept as' path v (if is_stored (lookup here m) then m else insert here (app a) m)
      (insert-Kept here path (app a) v m kept)

update_apps-Kept :
    (file : Option (List AppData)) (path : String) (v : DbValue) (db : Db)
    → lookup path db.m ≡ some v
    → lookup path (update_apps_data file db).1.m ≡ some v
unfolding update_apps_data
update_apps-Kept none path v db kept = kept
update_apps-Kept (some apps) path v db kept = at_any db.faults
  where
    at_any : (fs : List Bool) → lookup path (put_at fs apps db).1.m ≡ some v
    at_any [] = put_absent-Kept apps path v db.m kept
    at_any (false ∷ fs) = put_absent-Kept apps path v db.m kept
    at_any (true ∷ fs) = kept

works_at :
    (faults : List Bool) (path : String) (v : DbValue) (db : Db)
    → first_fails faults ≡ false
    → (write_at faults ((path, v) ∷ []) db).0 ≡ true
unfolding first_fails
works_at [] path v db h = refl
works_at (false ∷ bs) path v db h = refl
works_at (true ∷ bs) path v db h = absurd (cc)

-- Where an app is stored and the transaction does not fail, `updateAppData` stores whether it has access and
-- keeps the rest of its data; any list of apps that is read afterwards, with an error or without, leaves
-- that decision.
update_app_data_lem :
    (name : String) (allowed : Bool) (a : AppData) (file : Option (List AppData)) (db : Db)
    → get_app name db ≡ some a
    → will_fail db ≡ false
    → (db' : Db) × (update_app_data name allowed db ≡ some (true, db'))
      × (get_app name (update_apps_data file db').1 ≡ some (record a { allowed_access = allowed }))
unfolding update_app_data get_app mutate will_fail as_app
update_app_data_lem name allowed a file db present works =
    let new : DbValue = app (record a { allowed_access = allowed }) in
    let after = mutate ((app_path name, new) ∷ []) db in
    (
      after.1,
      rw (present) (ap (λ b. some (b, after.1)) (works_at db.faults (app_path name) new db works)),
      ap as_app (
          update_apps-Kept file (app_path name) new after.1 (
            mutate-map (app_path name) new db (app_path name)
            ∙ rw (works, eq_refl (app_path name)) refl)),
    )
