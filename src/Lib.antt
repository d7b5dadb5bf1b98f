-- ===== src/Lib.antt =====
-- A model of the parts of the Lantern client that are written in Go and that decide: the desktop
-- settings, the announcements, the data cap, the channel to the UI, the Pro account, the mobile
-- session, the configuration, the tunnel and the geolocation of the iOS client, the web client with the
-- authentication, the desktop application, and the headers of requests.
--
-- How the parts interact. The UI talks to the client over websockets (desktop/ws): messages of the UI
-- are handed to the service registered under their type, and messages of a service go to all
-- connections. The settings (desktop/app/settings.go) are one such service: a message of the UI
-- changes the store, the store is written to disk, and the callbacks and the UI are told. The scan of
-- announcements (desktop/app/loconfscanner.go) reads the language and the past announcements from the
-- settings, asks the parsed configuration (desktop/loconf/loconf.go) for the announcement that is due,
-- and stores what it has shown. The data cap (desktop/datacap/datacap.go) is another service. The Pro
-- client (internalsdk/pro) updates a session from the server's answers, the session of the mobile
-- client keeps the account in a path database, and every request to a server
-- carries the headers of internalsdk/common/headers.go. On iOS, the configuration of the proxies is
-- opened from files, updated from the web and stored again (internalsdk/ios/config.go); the tunnel takes
-- its dialers from there, and dials for the connections of the network stack. The session signs in
-- through the authentication client, which sends its requests by the web client.
--
-- The files.
--   Prelude     numbers, options, lists, dictionaries, texts and integers that all parts share. A Go
--               panic is `none`; a Go map is an association list with `lookup` and `insert`.
--   Settings    desktop/app/settings.go. Value: the dynamic values that JSON and YAML give. Names: the
--               names and `settingMeta`. Store: `Settings` with its getters, setters, `mapToSave`,
--               `uiMap`, `save`, `setVals`, `onChange`; the world is a list of events (what was saved,
--               called and sent). Messages: `read`. Load: `newSettings`, `toCamelCase`,
--               `LoadSettingsFrom`. Accessors: the exported getters and setters. Proofs: Types, Safety,
--               Writes, Protected, Saved, Migration, RoundTrip.
--   Loconf      Conf and Announce: desktop/loconf/loconf.go (`parse`, `GetSurvey`,
--               `GetUninstallSurvey`, `GetAnnouncement`). Scanner: desktop/app/loconfscanner.go.
--               Proofs: Keys, Due, Once.
--   DataCap     desktop/datacap/datacap.go. Notify: `processQuota` and the notifications. Updates: the
--               messages to the UI. Proofs: Levels and Updates.
--   Ws          Clients: desktop/ws/ws.go as steps on the map of connections and their queues.
--               Services: desktop/ws/service.go. Proofs: Safety, Delivery, Registry, Inbox.
--   Pro         User and Poll: internalsdk/pro/user.go, with the two requests of internalsdk/pro/pro.go
--               that it makes. Client: the other requests of pro.go. Plans:
--               internalsdk/pro/plans.go. Proofs: Status, Exclusion, Logos, Cache.
--   Session     internalsdk/session_model.go. Db: the path database, with transactions that may fail, and
--               the first setters. Account: `cacheUserDetail`, `userDetail`, `userCreate`, what `login`
--               stores, `deviceLimitFlow`, `clearLocalUserData`, `signOut`. Values: the values that are
--               stored and read one at a time. Purchases: the purchases, with `createPurchaseData` of
--               internalsdk/utils.go. Payment: plans and providers. Ads: `checkAdsEnabled` and its
--               callers. Apps: split tunnelling. Links: linking of devices. Secrets: recovery, a
--               change of the e-mail address and deletion. Login: `login`. Start: `initSessionModel` and the
--               features. Method and Invoke: `doInvokeMethod`. Vpn: internalsdk/vpn_model.go. Proofs:
--               Identity, SignIn, SignOut, Ladders, Stored, Paid, Shown, Access, Deleted, Frame, Unmoved,
--               Outside, Methods, Redeemed, Switching. Surveys: internalsdk/survey.go.
--   Ios         Disk: files whose writes may fail. Config, Fetch and Configure:
--               internalsdk/ios/config.go. Geo: internalsdk/ios/geolookup/geolookup.go. Proofs: Reopen,
--               Excluded, Backoff, Restart.
--   Tunnel      the tunnel of the iOS client. Tcp: internalsdk/ios/tcp.go, Udp: internalsdk/ios/udp.go, both
--               as interleaved events. Client: internalsdk/ios/ios.go. Proofs: Dials, Settled,
--               Steps, Leak, Idle, Watched, Start.
--   Web         Client: internalsdk/webclient/webclient.go. Auth: internalsdk/auth. Proofs: Printed, SignIn.
--   Desktop     Users: desktop/app/pro.go. Auth: desktop/auth.go. Lifecycle: desktop/app/app.go (start,
--               exit and devices). Exports: desktop/lib.go. Proofs: Refreshed, SignedOut, Exits, Renewed.
--   Headers     Header: a header map of net/http. Common: the headers of requests. Cors: cross-origin
--               requests. Proofs: Passing, Auth, Preflight.
--   Tests       concrete runs.
--
-- Bounds. Queues have the capacities of the source (1000 of a connection and of a service, 10 of the callbacks of UDP). A user id
-- that is parsed is in the range of int64; a wider number is refused as `json.Number` refuses it. The
-- unsigned counters of the data cap wrap as the conversion to int does. Times are seconds. All loops
-- are recursions on the lists that they go through; the endless loops (`scan`, `writeAll`,
-- `PollUserData`) are recursions on the list of the events that they meet, so no fuel is needed;
-- so is the lookup of the place, on the answers that it gets.
--
-- What stands for other code. `sprint` is `fmt.Sprintf("%v")`; `lower` is `strings.ToLower` (for the
-- names of the settings, which are ASCII, it is defined); `decode` and its like are `json.Unmarshal`;
-- `parse_time` is `time.Parse`; `translate` and `itoa` are the texts of notifications; `canon` is the
-- canonical form of a header's name; `ratio_above` and `percent_of` are floating-point quotients.
-- `parse_global` and `parse_proxies` are `yaml.Unmarshal`, `host_of` is `net.SplitHostPort`, `encode` and
-- `decode` of a place are encoding/json, `Srp` is the SRP client, and `purchase`, `restore`, `prepare`
-- and the like are requests to servers. `execute` sends a request of the web client, `is_print` is
-- `unicode.IsPrint`, `Messages` stands for protobuf, and `create` and `parse_user` of the
-- tunnel are `chained.CreateDialers` and `yaml.Unmarshal`.
--
-- What is not modelled: disk, sockets, HTTP and timers themselves, the log, and the parts of the
-- repository (as the entry points of Android, and the start of the services of desktop/app) that are
-- glue around other packages, are generated, or are not written in Go. Locks are taken to make each
-- of the steps one step.
pub mod Prelude
pub mod Settings
pub mod Loconf
pub mod DataCap
pub mod Ws
pub mod Pro
pub mod Session
pub mod Ios
pub mod Tunnel
pub mod Web
pub mod Desktop
pub mod Headers
pub mod Tests
