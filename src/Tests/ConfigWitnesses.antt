-- ===== src/Tests/ConfigWitnesses.antt =====
-- The theorems of the configuration and of the feeder's set-up at concrete configurations.
use verulink.Base.{◌≡◌, refl, true, List, [], ◌∷◌, ◌++◌, Bytes, codes, eqb, lookup, All, ok, some}
use verulink.Chain.BigInt.{ℤ, pos, eqb_ℤ, big_string, itoa, emit}
use verulink.Config.{ChainConfig, validate_chain_config}
use verulink.Config.Laws.{IsChainId, validate_chain_config_dests}
use verulink.Config.Init.{
  Os, FileInfo, Removal, FlagArgs, Config, init_config, get_path, validate_directory,
}
use verulink.Config.InitLaws.{IsSettled, init_config-IsSettled}
use verulink.Relay.Feeder.{Registered}
use verulink.Relay.Restart.{Feeds}
use verulink.Relay.Web.{Web}
use verulink.Relay.Signer.{setup_signer, dial, host_port}
use verulink.Relay.Collector.{setup_collector}
use verulink.Relay.Screener.{namespace, setup_screen_service}
use verulink.Relay.Start.{RelayConfig, Ready, chain_id_to_address, set_up_collector, start_relay}
use verulink.Relay.Start.Laws.{HasWallets, start_relay-HasWallets}
use verulink.Store.Db.{create_namespace}
use verulink.Store.Ops.{create_bucket}
use verulink.Store.Bolt.Entries.{Entry}
use verulink.Tests.Journal.{journal}
use verulink.Tests.Data.{digest}

abbrev pub config_of : Bytes → ℤ → List Bytes → ChainConfig
config_of name id dests = record {
  name = name;
  chain_id = id;
  bridge_contract = [];
  node_url = [];
  packet_validity_wait_duration = 0;
  feed_packet_wait_duration = 0;
  finality_height = 0;
  wallet_path = [];
  dest_chains = dests;
  wallet_address = [];
  start_seq_num = [];
  start_height = 0;
  filter_topic = [];
  retry_packet_wait_dur = 0;
  prune_base_seq_number_wait_dur = 0;
  average_block_gen_dur = 0;
}

abbrev pub two_chains : List ChainConfig
two_chains =
    config_of (codes "aleo") (pos 2) (codes "ethereum" ∷ [])
    ∷ config_of (codes "ethereum") (pos 1) (codes "aleo" ∷ [])
    ∷ []

abbrev pub resolved : List ChainConfig
resolved =
    config_of (codes "aleo") (pos 2) (codes "1" ∷ [])
    ∷ config_of (codes "ethereum") (pos 1) (codes "2" ∷ [])
    ∷ []

two_chains_valid : validate_chain_config two_chains ≡ ok resolved
unfolding validate_chain_config lookup eqb big_string itoa emit
two_chains_valid = refl

validate_chain_config_dests_example :
    All (λ (c : ChainConfig). All (IsChainId two_chains) c.dest_chains) resolved
validate_chain_config_dests_example =
    validate_chain_config_dests two_chains resolved two_chains_valid

abbrev pub os : Os
os = record {
  stat = λ p. FileInfo.directory;
  mkdir_all = λ p. ok tt;
  remove = λ p. Removal.nothing;
  join = λ p f. p ++ codes "/" ++ f;
}

abbrev pub flags : FlagArgs
flags = record {
  log_enc = [];
  db_dir = codes "d";
  log_dir = [];
  mode = codes "stage";
  clean_start = true;
}

abbrev pub yaml : Config
yaml = record {
  chain_configs = two_chains;
  has_log_config = true;
  log_encoding = codes "json";
  log_output_dir = codes "l";
  log_output_path = [];
  db_dir = [];
  db_path = [];
  consume_packet_worker = pos 0;
  mode = [];
  signing_scheme = codes "https";
}

abbrev pub settled : Config
settled = record yaml {
  chain_configs = resolved;
  log_output_path = codes "l/verulink.log";
  db_path = codes "d/verulinkBolt.db";
  consume_packet_worker = pos 10;
  mode = codes "stage";
}

settled_here : init_config os flags (ok yaml) ≡ ok settled
unfolding init_config get_path validate_directory validate_chain_config lookup eqb eqb_ℤ big_string
    itoa emit
settled_here = refl

init_config-IsSettled_example :
    (read : Config) × (ok yaml ≡ ok read) × IsSettled os flags read settled
init_config-IsSettled_example = init_config-IsSettled os flags (ok yaml) settled settled_here

abbrev pub registered : Registered
registered = (codes "aleo", λ c. ok c.name) ∷ (codes "ethereum", λ c. ok c.name) ∷ []

abbrev pub made : List (Bytes × Bytes)
made = (codes "1", codes "ethereum") ∷ (codes "2", codes "aleo") ∷ []

-- Every request is refused for want of a body.
abbrev pub refusing : Web
refusing = record {
  send = λ r. ok (record { status_code = 400; body = ok [] });
  build_url = λ s u h p. h ++ p;
  parse_url = λ u. ok u;
  join_path = λ u p. u ++ p;
  encode_query = λ q. [];
  with_query = λ u q. u ++ q;
  marshal_object = λ o. ok [];
  unmarshal_strings = λ b. ok [];
}

abbrev pub relay_config : RelayConfig
relay_config = record {
  chain_configs = two_chains;
  signing_service = record {
    host = codes "h";
    port = 80;
    endpoint = codes "/sign";
    scheme = codes "http";
    username = codes "u";
    password = codes "p";
    health_endpoint = codes "/health";
  };
  collector_service = record {
    uri = codes "c";
    collector_wait_dur = 0;
    ca_certificate = [];
    attestor_certificate = [];
    attestor_key = [];
  };
}

abbrev pub ready : Ready
ready = record {
  signer_url = codes "h:80/sign";
  collector = record {
    uri = codes "c";
    chain_id_to_address = (codes "1", []) ∷ (codes "2", []) ∷ [];
    collector_wait_dur = 0;
  };
}

is_ready : (start_relay journal digest refusing (ok []) (ok tt) relay_config []).0 ≡ ok ready
unfolding start_relay set_up_collector setup_signer dial host_port setup_screen_service
    create_namespace create_bucket setup_collector chain_id_to_address lookup eqb big_string itoa
    emit
is_ready = refl

start_relay-HasWallets_example :
    (setup_signer refusing relay_config.signing_service ≡ ok ready.signer_url)
    × HasWallets ready two_chains
    × (es : List Entry) × (journal.bucket
          (start_relay journal digest refusing (ok []) (ok tt) relay_config []).1
          namespace
        ≡ some es)
start_relay-HasWallets_example =
    start_relay-HasWallets journal digest refusing (ok []) (ok tt) relay_config [] ready is_ready

-- The feed of the aleo chain has started and panicked, and the other one waits for its start.
abbrev panicked : Feeds
panicked = record {
  capacity = 2;
  queued = codes "ethereum" ∷ [];
  feeding = [];
  sending = codes "aleo" ∷ [];
  returned = [];
  started = codes "aleo" ∷ [];
}

abbrev started : Feeds
started = record panicked { feeding = codes "aleo" ∷ []; sending = [] }
