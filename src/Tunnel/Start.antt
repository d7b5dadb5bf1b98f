-- ===== src/Tunnel/Start.antt =====
-- The iOS client starts with the proxies that were configured for it.
use lantern_client.Prelude.{
  ◌≡◌, refl, String, true, false, Option, some, List, [], ◌∷◌, Dict, insert, lookup-insert, ◌==◌,
}
use lantern_client.Ios.Disk.{Disk, write_file}
use lantern_client.Ios.Config.{Proxy, user_config_yaml, proxies_yaml, etag_of, write_user_config}
use lantern_client.Ios.Fetch.{Response, save_fetched, fetch_proxies, store_fetched, update_proxies}
use lantern_client.Ios.Reopen.{etag_sent, saved, open-saved, do_update-ok, fetched_ok}
use lantern_client.Tunnel.Client.{
  Started, failed, started, no_dialers, read_user_config, load_dialers, start_user, start,
  reconfigure,
}

-- The disk after `configure` has written the user and stored an answer.
abbrev user_files : String → Dict String → Dict String
user_files text files = insert user_config_yaml text files

-- A client does not start without dialers.
abbrev pub started_with : {D : Type 0} → List D → Started (List D)
started_with [] = failed no_dialers
started_with (x ∷ xs) = started (x ∷ xs)

read-user :
    {U : Type 0} (parse_user : String → Option U) (text content etag : String) (uc : U)
    (files : Dict String)
    → (text == "") ≡ false
    → parse_user text ≡ some uc
    → read_user_config parse_user (saved proxies_yaml content etag (user_files text files))
      ≡ some uc
unfolding read_user_config save_fetched write_file
read-user parse_user text content etag uc files full p =
    rw
      (
        lookup-insert (etag_of proxies_yaml) user_config_yaml etag
            (insert proxies_yaml content (user_files text files)),
        lookup-insert proxies_yaml user_config_yaml content (user_files text files),
        lookup-insert user_config_yaml user_config_yaml text files,
        full,
      )
      p

module _ {U D : Type 0} (parse : String → Option (Dict Proxy))
    (create : U → Dict Proxy → List D) where
  start-loaded :
      (parse_user : String → Option U) (uc : U) (ds : List D) (d : Disk)
      → read_user_config parse_user d ≡ some uc
      → load_dialers parse create uc d ≡ (started ds, d)
      → (start parse create parse_user true true d ≡ (started_with ds, d))
        × (reconfigure parse create uc d ≡ some (ds, d))
  unfolding start start_user reconfigure
  start-loaded parse_user uc [] d user loaded = (rw (user, loaded) refl, rw (loaded) refl)
  start-loaded parse_user uc (x ∷ xs) d user loaded = (rw (user, loaded) refl, rw (loaded) refl)

  load-saved :
      (uc : U) (text content : String) (r : Response) (ps : Dict Proxy) (files : Dict String)
      → (content == "") ≡ false
      → parse content ≡ some ps
      → let d = saved proxies_yaml content (etag_sent r) (user_files text files) in
        load_dialers parse create uc d ≡ (started (create uc ps), d)
  unfolding load_dialers
  load-saved uc text content r ps files full p =
      rw
        (open-saved parse proxies_yaml "" content (etag_sent r) ps (user_files text files) refl full
          p)
        refl

  -- Where the user's configuration is written and the server answers 200 with proxies that can be parsed,
  -- and no write fails, the next start reads that user and takes exactly the dialers of those proxies,
  -- whether their etag was new or not, and whatever this run went on with; with none of them it
  -- fails. A client that runs takes the same dialers when it is reconfigured, also where there are none.
  pub start-update_proxies :
      (parse_user : String → Option U) (uc : U) (text content etag : String) (r : Response)
      (ps cfg : Dict Proxy) (files : Dict String)
      → (text == "") ≡ false
      → parse_user text ≡ some uc
      → r.status ≡ 200
      → r.content ≡ some content
      → (content == "") ≡ false
      → parse content ≡ some ps
      → let d1 = (write_user_config (some text) (record { files = files; faults = [] })).1 in
        let d2 = (update_proxies parse "" (some r) cfg etag d1).2 in
        (start parse create parse_user true true d2 ≡ (started_with (create uc ps), d2))
        × (reconfigure parse create uc d2 ≡ some (create uc ps, d2))
  unfolding write_user_config write_file update_proxies fetch_proxies store_fetched fetched_ok
  start-update_proxies parse_user uc text content etag r ps cfg files user_full user status body
        full p =
      rw (do_update-ok parse r content ps status body p) (
        start-loaded parse_user uc (create uc ps)
          (saved proxies_yaml content (etag_sent r) (user_files text files))
          (read-user parse_user text content (etag_sent r) uc files user_full user)
          (load-saved uc text content r ps files full p))
