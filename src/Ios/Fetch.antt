-- ===== src/Ios/Fetch.antt =====
-- The updates of the configuration from the web (internalsdk/ios/config.go). An answer of the server is
-- what the round trip, `gzip` and `md5` make of it.
use lantern_client.Prelude.{
  ℕ, String, Bool, true, false, not, Option, none, some, List, [], ◌∷◌, Dict, eqb, if◌then◌else◌,
  ◌==◌,
}
use lantern_client.Ios.Disk.{Disk, write_file}
use lantern_client.Ios.Config.{
  global_yaml, proxies_yaml, etag_of, Proxy, Global, not_fetched, bad_status, bad_body, Result, err,
  ok,
}

-- A response: its status, its etag header, the content of its body (`none` where it cannot be
-- unzipped), and the hash of the body.
pub record Response : Type 0 where
  pub status : ℕ
  pub etag : String
  pub content : Option String
  pub md5 : String

-- A configuration that was fetched; `content` is nil where the server has no newer one.
pub record Fetched (C : Type 0) : Type 0 where
  pub content : Option String
  pub etag : String
  pub updated : Option C

module _ {C : Type 0} (parse : String → Option C) where
  body_parsed : String → String → String → Option C → Result (Fetched C)
  body_parsed content etag md5 none = err bad_body
  body_parsed content etag md5 (some c) =
      ok (record {
        content = some content;
        etag = if etag == "" then md5 else etag;
        updated = some c;
      })

  body_read : Response → Option String → Result (Fetched C)
  body_read r none = err bad_body
  body_read r (some content) = body_parsed content r.etag r.md5 (parse content)

  -- `doUpdateFromWeb`, given the response (`none` is an error of the round trip).
  unfoldable pub do_update_from_web : Option Response → Result (Fetched C)
  unfolding body_read body_parsed
  do_update_from_web none = err not_fetched
  do_update_from_web (some r) =
      if eqb r.status 304
      then ok (record { content = none; etag = ""; updated = none })
      else if eqb r.status 200
      then body_read r r.content
      else err bad_status

-- `updateFromHardcodedProxies`: the text is not parsed.
unfoldable pub hardcoded_fetch : {C : Type 0} → String → Result (Fetched C)
hardcoded_fetch hardcoded =
    ok (record { content = some hardcoded; etag = "hardcoded"; updated = none })

-- Whether the etag is new, what was parsed on the way, and the disk.
pub record Update (C : Type 0) : Type 0 where
  pub did_fetch : Bool
  pub updated : Option C
  pub disk : Disk

-- `saveConfig` and `saveEtag`, whose errors are logged.
unfoldable pub save_fetched : String → String → String → Disk → Disk
save_fetched name content etag d = (write_file (etag_of name) etag (write_file name content d).1).1

store_content : {C : Type 0} → String → String → Option String → Fetched C → Disk → Update C
store_content name etag none f d = record { did_fetch = false; updated = f.updated; disk = d }
store_content name etag (some content) f d = record {
  did_fetch = not (f.etag == etag);
  updated = f.updated;
  disk = save_fetched name content f.etag d;
}

-- The second half of `updateFromWeb`.
unfoldable pub store_fetched : {C : Type 0} → String → String → Result (Fetched C) → Disk → Update C
unfolding store_content
store_fetched name etag (err e) d = record { did_fetch = false; updated = none; disk = d }
store_fetched name etag (ok f) d = store_content name etag f.content f d

abbrev pub choose : {A : Type 0} → Bool → Option A → A → A
choose true (some new) old = new
choose did_fetch updated old = old

-- `updateGlobal`.
unfoldable pub update_global :
    (String → Option Global) → Option Response → Global → String → Disk → Global × Bool × Disk
update_global parse answer cfg etag d =
    let u = store_fetched global_yaml etag (do_update_from_web parse answer) d in
    (choose u.did_fetch u.updated cfg, u.did_fetch, u.disk)

abbrev pub is_empty_list : {A : Type 0} → List A → Bool
is_empty_list [] = true
is_empty_list (a ∷ as') = false

-- `len(updated) == 0`, where `updated` starts as an empty map.
abbrev pub no_proxies : Option (Dict Proxy) → Bool
no_proxies none = true
no_proxies (some ps) = is_empty_list ps

unfoldable pub fetch_proxies :
    (String → Option (Dict Proxy)) → String → Option Response → Result (Fetched (Dict Proxy))
fetch_proxies parse hardcoded answer =
    if not (hardcoded == "") then hardcoded_fetch hardcoded else do_update_from_web parse answer

-- `updateProxies` after its fetch.
abbrev pub take_proxies : Dict Proxy → Update (Dict Proxy) → Dict Proxy × Bool × Disk
take_proxies cfg u =
    let did_fetch = if no_proxies u.updated then false else u.did_fetch in
    (choose did_fetch u.updated cfg, did_fetch, u.disk)

-- `updateProxies`.
unfoldable pub update_proxies :
    (String → Option (Dict Proxy))
    → String
    → Option Response
    → Dict Proxy
    → String
    → Disk
    → Dict Proxy × Bool × Disk
update_proxies parse hardcoded answer cfg etag d =
    take_proxies cfg (store_fetched proxies_yaml etag (fetch_proxies parse hardcoded answer) d)
