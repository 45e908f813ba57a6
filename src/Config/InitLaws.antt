-- ===== src/Config/InitLaws.antt =====
-- What `InitConfig` guarantees to the rest of the program.
use verulink.Base.{
  ◌≡◌, ◌≢◌, Bool, true, false, panics, ◌⊎◌, inl, inr, refl, Bytes, codes, eqb, eqb_iff, Result, ok,
  bind_ok, ok-injective, Bool-cases, if◌then◌else◌,
}
use mathlib.Core.Path.{subst}
use verulink.Chain.BigInt.{ℤ, pos, eqb_ℤ, eqb_ℤ_iff}
use verulink.Config.{validate_chain_config}
use verulink.Config.Init.{
  Os, FlagArgs, Config, init_config, get_path, supported_scheme, ignore_absent, mode_of,
  db_file_name, log_file_name,
}

abbrev pub IsMode : Bytes → Type 0
IsMode m = (m ≡ codes "prod") ⊎ ((m ≡ codes "stage") ⊎ (m ≡ codes "dev"))

mode_of-IsMode : (m : Bytes) → IsMode (mode_of m)
mode_of-IsMode m = elim (Bool-cases (eqb m (codes "prod"))) [
  | inl prod ↦ rw prod (inl ((eqb_iff m (codes "prod")).0 prod))
  | inr other ↦ elim (Bool-cases (eqb m (codes "stage"))) [
    | inl stage ↦ rw (other, stage) (inr (inl ((eqb_iff m (codes "stage")).0 stage)))
    | inr neither ↦ rw (other, neither) (inr (inr refl))
  ]
]

-- The number of the file, where this is not 0, and else 10.
abbrev pub IsDefaulted : ℤ → ℤ → Type 0
IsDefaulted given set = ((given ≡ pos 0) × (set ≡ pos 10)) ⊎ ((given ≢ pos 0) × (set ≡ given))

workers-IsDefaulted : (n : ℤ) → IsDefaulted n (if eqb_ℤ n (pos 0) then pos 10 else n)
unfolding eqb_ℤ
workers-IsDefaulted n = elim (Bool-cases (eqb_ℤ n (pos 0))) [
  | inl is_zero ↦ rw is_zero (inl ((eqb_ℤ_iff n (pos 0)).0 is_zero, refl))
  | inr other ↦ rw other (inr (λ e. let same : eqb_ℤ n (pos 0) ≡ true = rw e refl in cc, refl))
]

log_path_ok :
    (has : Bool) (r : Result Bytes) (path : Bytes)
    → (if has then r else panics) ≡ ok path
    → (has ≡ true) × (r ≡ ok path)
log_path_ok true r path e = (refl, e)
log_path_ok false r path e = cc

-- What a configuration has, given the flags and the yaml file that it comes from.
pub record IsSettled (os : Os) (flags : FlagArgs) (yaml out : Config) : Type 0 where
  pub chains : validate_chain_config yaml.chain_configs ≡ ok out.chain_configs
  pub db : get_path os flags.db_dir yaml.db_dir db_file_name ≡ ok out.db_path
  pub has_log : yaml.has_log_config ≡ true
  pub log : get_path os flags.log_dir yaml.log_output_dir log_file_name ≡ ok out.log_output_path
  pub workers : IsDefaulted yaml.consume_packet_worker out.consume_packet_worker
  pub mode : IsMode out.mode

-- If `InitConfig` returns without an error, the file was read and has a section for the log,
-- and the configuration has validated chains, paths that were accepted, the number of workers that
-- the file has, or 10 where it has 0, and one of the three modes.
pub init_config-IsSettled :
    (os : Os) (flags : FlagArgs) (yaml : Result Config) (out : Config)
    → init_config os flags yaml ≡ ok out
    → (read : Config) × (yaml ≡ ok read) × IsSettled os flags read out
unfolding init_config
init_config-IsSettled os flags yaml out e =
    let (read, a, e1) = bind_ok yaml _ out e in
    let (chains, b, e2) = bind_ok (validate_chain_config read.chain_configs) _ out e1 in
    let (scheme, c, e3) = bind_ok (supported_scheme read.signing_scheme) _ out e2 in
    let (db, d, e4) = bind_ok (get_path os flags.db_dir read.db_dir db_file_name) _ out e3 in
    let (log, f, e5) =
      bind_ok
        (if read.has_log_config
          then get_path os flags.log_dir read.log_output_dir log_file_name
          else panics)
        _ out e4 in
    let (has, found) = log_path_ok read.has_log_config _ log f in
    let (cleaned, g, e6) =
      bind_ok (if flags.clean_start then ignore_absent (os.remove db) else ok tt) _ out e5 in
    (
      read,
      a,
      subst (IsSettled os flags read) (ok-injective e6) (record {
        chains = b;
        db = d;
        has_log = has;
        log = found;
        workers = workers-IsDefaulted read.consume_packet_worker;
        mode = mode_of-IsMode flags.mode;
      }),
    )
