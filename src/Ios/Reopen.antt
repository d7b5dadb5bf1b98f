-- ===== src/Ios/Reopen.antt =====
-- What the next start reads back of the configuration that internalsdk/ios/config.go fetched.
use lantern_client.Prelude.{
  ◌≡◌, refl, ◌∙◌, String, Bool, true, false, not, Option, none, some, [], Dict, lookup, insert,
  lookup-insert, eq_refl, eqb, eqb→eq, Bool-cases, inl, inr, if◌then◌else◌, ◌==◌, ◌⊎◌, Option-cases,
}
use lantern_client.Ios.Disk.{Disk, write_file, read_file}
use lantern_client.Ios.Config.{
  global_yaml, proxies_yaml, etag_of, Proxy, Global, Result, ok, open_read, open_config,
}
use lantern_client.Ios.Fetch.{
  Fetched, Response, do_update_from_web, hardcoded_fetch, save_fetched, store_fetched, choose,
  update_global, is_empty_list, fetch_proxies, update_proxies, take_proxies,
}

-- The etag of a response, or else the hash of its body.
abbrev pub etag_sent : Response → String
etag_sent r = if r.etag == "" then r.md5 else r.etag

read-write :
    (name other content : String) (files : Dict String)
    → read_file other (write_file name content (record { files = files; faults = [] })).1
      ≡ (if name == other then some content else lookup other files)
unfolding write_file
read-write name other content files = lookup-insert name other content files

abbrev pub saved : String → String → String → Dict String → Disk
saved name content etag files =
    save_fetched name content etag (record { files = files; faults = [] })

read-saved :
    (name content etag : String) (files : Dict String)
    → (etag_of name == name) ≡ false
    → read_file name (saved name content etag files) ≡ some content
unfolding save_fetched write_file
read-saved name content etag files h =
    lookup-insert (etag_of name) name etag (insert name content files)
    ∙ rw (h, lookup-insert name name content files, eq_refl name) refl

read-saved_etag :
    (name content etag : String) (files : Dict String)
    → read_file (etag_of name) (saved name content etag files) ≡ some etag
unfolding save_fetched write_file
read-saved_etag name content etag files =
    lookup-insert (etag_of name) (etag_of name) etag (insert name content files)
    ∙ rw (eq_refl (etag_of name)) refl

pub open-saved :
    {C : Type 0} (parse : String → Option C) (name embedded content etag : String) (c : C)
    (files : Dict String)
    → (etag_of name == name) ≡ false
    → (content == "") ≡ false
    → parse content ≡ some c
    → open_config parse name embedded (saved name content etag files) ≡ (
      ok (record { config = c; etag = etag; initialized = false }),
      saved name content etag files,
    )
unfolding open_config open_read
open-saved parse name embedded content etag c files other full p =
    rw (read-saved name content etag files other, full, p, read-saved_etag name content etag files)
      refl

unfoldable pub fetched_ok : {C : Type 0} → Response → String → C → Fetched C
fetched_ok r content c = record { content = some content; etag = etag_sent r; updated = some c }

pub do_update-ok :
    {C : Type 0} (parse : String → Option C) (r : Response) (content : String) (c : C)
    → r.status ≡ 200
    → r.content ≡ some content
    → parse content ≡ some c
    → do_update_from_web parse (some r) ≡ ok (fetched_ok r content c)
unfolding do_update_from_web fetched_ok
do_update-ok parse r content c status body p = rw (status, body, p) refl

choose-not :
    {A : Type 0} (b : Bool) (new old : A) → choose (not b) (some new) old ≡ (if b then old else new)
choose-not true new old = refl
choose-not false new old = refl

-- Where the server answers 200 with a text that is not empty and can be parsed, and no write
-- fails, the next start opens the configuration of that text with the etag of the answer, not from the
-- embedded one; the flag says whether the etag is new, and this run goes on with the new configuration
-- just then.
pub open_config-update_global :
    (parse : String → Option Global) (embedded : String) (r : Response) (content : String)
    (new cfg : Global) (etag : String) (files : Dict String)
    → r.status ≡ 200
    → r.content ≡ some content
    → parse content ≡ some new
    → (content == "") ≡ false
    → let (used, updated, d) =
        update_global parse (some r) cfg etag (record { files = files; faults = [] }) in
      (updated ≡ not (etag_sent r == etag))
      × (used ≡ (if etag_sent r == etag then cfg else new))
      × (open_config parse global_yaml embedded d
          ≡ (ok (record { config = new; etag = etag_sent r; initialized = false }), d))
unfolding update_global store_fetched fetched_ok
open_config-update_global parse embedded r content new cfg etag files status body p full =
    rw (do_update-ok parse r content new status body p) (
      refl,
      choose-not (etag_sent r == etag) new cfg,
      open-saved parse global_yaml embedded content (etag_sent r) new files refl full p,
    )

-- A configuration of proxies that was fetched: its text came with status 200, gives some proxy, and has
-- an etag that is not the one known.
abbrev pub FromServer :
    (String → Option (Dict Proxy)) → Option Response → String → Dict Proxy → Type 0
FromServer parse answer etag ps =
    (r : Response) × (content : String) × (answer ≡ some r)
    × (r.status ≡ 200)
    × (r.content ≡ some content)
    × (parse content ≡ some ps)
    × (is_empty_list ps ≡ false)
    × ((etag_sent r == etag) ≡ false)

unfoldable pub Chosen :
    (String → Option (Dict Proxy))
    → Option Response
    → String
    → Dict Proxy
    → Dict Proxy × Bool × Disk
    → Type 0
Chosen parse answer etag cfg (used, updated, d) =
    ((updated ≡ false) × (used ≡ cfg)) ⊎ ((updated ≡ true) × FromServer parse answer etag used)

module _ (parse : String → Option (Dict Proxy)) (etag : String) (cfg : Dict Proxy) (d : Disk) where
  -- What becomes of an answer.
  taken : Result (Fetched (Dict Proxy)) → Dict Proxy × Bool × Disk
  taken f = take_proxies cfg (store_fetched proxies_yaml etag f d)

  parsed-Chosen :
      (r : Response) (content : String) (ps : Dict Proxy)
      → r.status ≡ 200
      → r.content ≡ some content
      → parse content ≡ some ps
      → Chosen parse (some r) etag cfg (taken (ok (fetched_ok r content ps)))
  unfolding taken store_fetched fetched_ok Chosen
  parsed-Chosen r content ps status body p = elim (Bool-cases (is_empty_list ps)) [
    | inl none_left ↦ rw (none_left) (inl (refl, refl))
    | inr some_left ↦ elim (Bool-cases (etag_sent r == etag)) [
      | inl same ↦ rw (some_left, same) (inl (refl, refl))
      | inr other ↦
          rw (some_left, other) (inr (refl, (r, content, refl, status, body, p, some_left, other)))
    ]
  ]

  web-Chosen :
      (answer : Option Response)
      → Chosen parse answer etag cfg (taken (do_update_from_web parse answer))
  unfolding taken do_update_from_web store_fetched Chosen
  web-Chosen none = inl (refl, refl)
  web-Chosen (some r) = elim (Bool-cases (eqb r.status 304)) [
    | inl unchanged ↦ rw (unchanged) (inl (refl, refl))
    | inr changed ↦ elim (Bool-cases (eqb r.status 200)) [
      | inr bad ↦ rw (changed, bad) (inl (refl, refl))
      | inl good ↦ elim (Option-cases r.content) [
        | inl no_body ↦ rw (changed, good, no_body) (inl (refl, refl))
        | inr (content, body) ↦ elim (Option-cases (parse content)) [
          | inl unparsed ↦ rw (changed, good, body, unparsed) (inl (refl, refl))
          | inr (ps, p) ↦
              rw (do_update-ok parse r content ps (eqb→eq r.status 200 good) body p)
                (parsed-Chosen r content ps (eqb→eq r.status 200 good) body p)
        ]
      ]
    ]
  ]

  -- An update of the proxies goes on with those in use, without the flag, or sets the flag and goes on
  -- with proxies from the server: their text came with status 200, it parses to at least one proxy, and
  -- its etag is not the known one. So an empty list of the server is never used.
  pub update_proxies-Chosen :
      (hardcoded : String) (answer : Option Response)
      → Chosen parse answer etag cfg (update_proxies parse hardcoded answer cfg etag d)
  unfolding update_proxies fetch_proxies hardcoded_fetch store_fetched Chosen taken
  update_proxies-Chosen hardcoded answer = elim (Bool-cases (hardcoded == "")) [
    | inl not_set ↦ rw (not_set) (web-Chosen answer)
    | inr is_set ↦ rw (is_set) (inl (refl, refl))
  ]
