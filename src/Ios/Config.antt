-- ===== src/Ios/Config.antt =====
-- `configurer` of internalsdk/ios/config.go: its files, and how they are opened. `parse` stands for
-- `yaml.Unmarshal`. The user's configuration is the text that `yaml.Marshal` gives (`none` is its error).
use Prim.Native.String.{◌++◌ as append}
use lantern_client.Prelude.{
  String, Bool, true, false, Option, none, some, List, if◌then◌else◌, ◌==◌,
}
use lantern_client.Ios.Disk.{Disk, write_file, read_file}

abbrev pub user_config_yaml : String
user_config_yaml = "userconfig.yaml"

abbrev pub global_yaml : String
global_yaml = "global.yaml"

abbrev pub proxies_yaml : String
proxies_yaml = "proxies.yaml"

abbrev pub etag_of : String → String
etag_of name = append name ".etag"

pub record Proxy : Type 0 where
  pub addr : String
  pub multiplexed_addr : String

-- Of the global configuration: the addresses of the masquerades of each provider.
pub record Global : Type 0 where
  pub providers : List (List String)

pub record ConfigResult : Type 0 where
  pub vpn_needs_reconfiguring : Bool
  pub ips_to_exclude : String

pub data Failure : Type 0 where
  bad_user_config not_written bad_config not_fetched bad_status bad_body : Failure

pub data Result (A : Type 0) : Type 0 where
  err : Failure → Result A
  ok : A → Result A

-- `writeUserConfig`.
unfoldable pub write_user_config : Option String → Disk → Bool × Disk
write_user_config none d = (false, d)
write_user_config (some text) d = write_file user_config_yaml text d

-- What `openConfig` gives: the configuration, its etag, and whether the file was initialised.
pub record Opened (C : Type 0) : Type 0 where
  pub config : C
  pub etag : String
  pub initialized : Bool

module _ {C : Type 0} (parse : String → Option C) (name embedded : String) where
  parsed : Option C → Bool → Disk → Result (Opened C) × Disk
  parsed none initialized d = (err bad_config, d)
  parsed (some c) initialized d = (
    ok (record {
      config = c;
      etag = elim (read_file (etag_of name) d) [ none ↦ "" | some e ↦ e ];
      initialized = initialized;
    }),
    d,
  )

  after_write : Bool × Disk → Result (Opened C) × Disk
  after_write (false, d) = (err not_written, d)
  after_write (true, d) = parsed (parse embedded) true d

  unfoldable pub open_read : Option String → Disk → Result (Opened C) × Disk
  unfolding parsed after_write
  open_read none d = after_write (write_file name embedded d)
  open_read (some content) d =
      if content == ""
      then after_write (write_file name embedded d)
      else parsed (parse content) false d

  -- `openConfig`.
  unfoldable pub open_config : Disk → Result (Opened C) × Disk
  open_config d = open_read (read_file name d) d
