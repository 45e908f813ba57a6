-- ===== src/Config/Init.antt =====
-- attestor/chainService/config/config.go: `InitConfig` and the paths that it computes. The file
-- system is a parameter.
use verulink.Base.{
  Bool, true, false, List, [], ◌∷◌, ◌++◌, Bytes, codes, eqb, starts_with, Result, ok, err, panics,
  Error, message, ◌>>=◌, if◌then◌else◌, ◌||◌, not,
}
use verulink.Chain.BigInt.{ℤ, pos, eqb_ℤ}
use verulink.Config.{ChainConfig, validate_chain_config}

pub data FileInfo : Type 0 where
  not_exist unreadable regular directory : FileInfo

pub data Removal : Type 0 where
  removed nothing : Removal
  failed : Error → Removal

-- `os.Stat`, `os.MkdirAll`, `os.Remove` and `filepath.Join`.
pub record Os : Type 0 where
  pub stat : Bytes → FileInfo
  pub mkdir_all : Bytes → Result (Unit {0})
  pub remove : Bytes → Removal
  pub join : Bytes → Bytes → Bytes

pub record FlagArgs : Type 0 where
  pub log_enc : Bytes
  pub db_dir : Bytes
  pub log_dir : Bytes
  pub mode : Bytes
  pub clean_start : Bool

-- The log section is a pointer, which is nil where the file has no such section.
pub record Config : Type 0 where
  pub chain_configs : List ChainConfig
  pub has_log_config : Bool
  pub log_encoding : Bytes
  pub log_output_dir : Bytes
  pub log_output_path : Bytes
  pub db_dir : Bytes
  pub db_path : Bytes
  pub consume_packet_worker : ℤ
  pub mode : Bytes
  pub signing_scheme : Bytes

abbrev pub contains : Bytes → Bytes → Bool
contains [] pattern = starts_with pattern []
contains (c ∷ s) pattern = starts_with pattern (c ∷ s) || contains s pattern

abbrev pub is_empty : Bytes → Bool
is_empty [] = true
is_empty (c ∷ s) = false

abbrev pub ignore_absent : Removal → Result (Unit {0})
ignore_absent removed = ok tt
ignore_absent nothing = ok tt
ignore_absent (failed e) = err e

abbrev pub db_file_name : Bytes
db_file_name = codes "verulinkBolt.db"

abbrev pub log_file_name : Bytes
log_file_name = codes "verulink.log"

abbrev pub supported_scheme : Bytes → Result (Unit {0})
supported_scheme s =
    if eqb s (codes "https") || eqb s (codes "http")
    then ok tt
    else err (message (s ++ codes " scheme is not supported"))

-- The yaml file's mode is not used.
abbrev pub mode_of : Bytes → Bytes
mode_of m = if eqb m (codes "prod") || eqb m (codes "stage") then m else codes "dev"

module _ (os : Os) where
  open os use {stat, mkdir_all, remove, join}

  -- An error of `os.Stat` other than for a missing file leaves a nil `finfo`, whose method panics.
  abbrev pub directory_at : Bytes → FileInfo → Result (Unit {0})
  directory_at p not_exist = mkdir_all p
  directory_at p unreadable = panics
  directory_at p regular = err (message (codes "invalid path. Should be directory"))
  directory_at p directory = ok tt

  unfoldable pub validate_directory : Bytes → Bytes → Result (Unit {0})
  validate_directory p file_name =
      if contains p file_name
      then err (message (codes "ambiguous name"))
      else directory_at p (stat p)

  abbrev pub path_in : Bytes → Bytes → Result Bytes
  path_in dir file_name = do valid ← validate_directory dir file_name; ok (join dir file_name)

  unfoldable pub get_path : Bytes → Bytes → Bytes → Result Bytes
  unfolding validate_directory
  get_path path_frm_flag path_frm_yaml file_name =
      if not (is_empty path_frm_flag)
      then path_in path_frm_flag file_name
      else if not (is_empty path_frm_yaml)
      then path_in path_frm_yaml file_name
      else ok (join (codes ".") file_name)

  -- The configuration that `InitConfig` sets, given what reading the yaml file returns.
  unfoldable pub init_config : FlagArgs → Result Config → Result Config
  unfolding get_path
  init_config flags yaml = do
    read ← yaml
    chains ← validate_chain_config read.chain_configs
    scheme ← supported_scheme read.signing_scheme
    db_file_path ← get_path flags.db_dir read.db_dir db_file_name
    log_file_path ←
        if read.has_log_config
        then get_path flags.log_dir read.log_output_dir log_file_name
        else panics
    cleaned ← if flags.clean_start then ignore_absent (remove db_file_path) else ok tt
    ok (record read {
      chain_configs = chains;
      consume_packet_worker =
          if eqb_ℤ read.consume_packet_worker (pos 0) then pos 10 else read.consume_packet_worker;
      db_path = db_file_path;
      log_output_path = log_file_path;
      log_encoding = if is_empty flags.log_enc then read.log_encoding else flags.log_enc;
      mode = mode_of flags.mode;
    })
