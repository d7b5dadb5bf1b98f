-- ===== src/Ios/Configure.antt =====
-- `configure` of internalsdk/ios/config.go: what is opened, what is updated, and which addresses are
-- excluded from the VPN. `host_of` stands for the host that `net.SplitHostPort` gives (empty at an error).
use Prim.Native.String.{◌++◌ as append}
use lantern_client.Prelude.{
  String, Bool, true, false, ◌||◌, Option, List, [], ◌∷◌, Dict, if◌then◌else◌, ◌==◌,
}
use lantern_client.Ios.Disk.{Disk}
use lantern_client.Ios.Config.{
  global_yaml, proxies_yaml, Proxy, Global, ConfigResult, bad_user_config, Result, err, ok, Opened,
  open_config, write_user_config,
}
use lantern_client.Ios.Fetch.{Response, update_global, update_proxies}

-- `fmt.Sprintf("%v,%v", a, b)`.
abbrev pub comma : String → String → String
comma a b = append a (append "," b)

abbrev pub add_masquerade : String → String → String
add_masquerade excluded ip = if excluded == "" then ip else comma excluded ip

unfoldable pub add_masquerades : String → List String → String
add_masquerades excluded [] = excluded
add_masquerades excluded (ip ∷ ips) = add_masquerades (add_masquerade excluded ip) ips

unfoldable pub add_providers : String → List (List String) → String
add_providers excluded [] = excluded
add_providers excluded (ms ∷ ps) = add_providers (add_masquerades excluded ms) ps

module _ (host_of : String → String) where
  abbrev pub add_host : String → String → String
  add_host excluded addr = if addr == "" then excluded else comma (host_of addr) excluded

  -- The loop over the proxies; `range` visits them in any order.
  unfoldable pub add_proxies : String → Dict Proxy → String
  add_proxies excluded [] = excluded
  add_proxies excluded ((name, p) ∷ ps) =
      add_proxies (add_host (add_host excluded p.addr) p.multiplexed_addr) ps

  unfoldable pub excluded_ips : Global → Dict Proxy → String
  excluded_ips global proxies = add_proxies (add_providers "" global.providers) proxies

-- What the build and the caller give to a configurer, and the answers that it will get.
pub record Setting : Type 0 where
  pub parse_global : String → Option Global
  pub parse_proxies : String → Option (Dict Proxy)
  pub host_of : String → String
  pub embedded_global : String
  pub embedded_proxies : String
  pub hardcoded : String
  pub user_config : Option String
  pub global_answer : Option Response
  pub proxies_answer : Option Response

module _ (s : Setting) where
  refreshed : Bool → Opened (Dict Proxy) → Disk → Dict Proxy × Bool × Disk
  refreshed false proxies d = (proxies.config, false, d)
  refreshed true proxies d =
      update_proxies s.parse_proxies s.hardcoded s.proxies_answer proxies.config proxies.etag d

  -- From the updates to the result.
  unfoldable pub configure_opened :
      Bool → Opened Global → Opened (Dict Proxy) → Disk → ConfigResult × Disk
  unfolding refreshed
  configure_opened refresh global proxies d =
      let (cfg, global_updated, d₁) =
        update_global s.parse_global s.global_answer global.config global.etag d in
      let (ps, proxies_updated, d₂) = refreshed refresh proxies d₁ in
      (
        record {
          vpn_needs_reconfiguring =
              (global.initialized || proxies.initialized) || global_updated || proxies_updated;
          ips_to_exclude = excluded_ips s.host_of cfg ps;
        },
        d₂,
      )

  with_proxies :
      Bool → Opened Global → Result (Opened (Dict Proxy)) × Disk → Result ConfigResult × Disk
  with_proxies refresh global (err e, d) = (err e, d)
  with_proxies refresh global (ok proxies, d) =
      let (r, d') = configure_opened refresh global proxies d in (ok r, d')

  with_global : Bool → Result (Opened Global) × Disk → Result ConfigResult × Disk
  with_global refresh (err e, d) = (err e, d)
  with_global refresh (ok global, d) =
      with_proxies refresh global (open_config s.parse_proxies proxies_yaml s.embedded_proxies d)

  with_user_config : Bool → Bool × Disk → Result ConfigResult × Disk
  with_user_config refresh (false, d) = (err bad_user_config, d)
  with_user_config refresh (true, d) =
      with_global refresh (open_config s.parse_global global_yaml s.embedded_global d)

  -- `configure`, without the goroutine that looks up the country and stores the user's configuration
  -- again.
  unfoldable pub configure : Bool → Disk → Result ConfigResult × Disk
  unfolding with_user_config with_global with_proxies
  configure refresh d = with_user_config refresh (write_user_config s.user_config d)
