-- ===== src/Tests/ServiceWitnesses.antt =====
-- The start of the chain service at a concrete configuration.
use verulink.Base.{List, ◌≡◌, refl, true, false, [], Bytes, Result, ok, eqb, lookup}
use verulink.Chain.BigInt.{eqb_ℤ, big_string, itoa, emit}
use verulink.Config.{validate_chain_config}
use verulink.Config.Init.{init_config, get_path, validate_directory}
use verulink.Store.Db.{create_namespace}
use verulink.Store.Ops.{create_bucket}
use verulink.Relay.Signer.{setup_signer, dial, host_port}
use verulink.Relay.Screener.{setup_screen_service}
use verulink.Relay.Collector.{setup_collector}
use verulink.Relay.Start.{chain_id_to_address, set_up_collector, start_relay}
use verulink.Service
use verulink.Service.{Sections, Running, start_service, init_log, init_metrics, get_log_config}
use verulink.Service.Laws.{IsStarted, start_service-IsStarted}
use verulink.Tests.Journal.{journal, Write}
use verulink.Tests.Data.{digest}
use verulink.Tests.ConfigWitnesses.{os, flags, yaml, settled, refusing, relay_config, ready}

abbrev rotated : Bytes → Result (Unit {0})
rotated path = ok tt

abbrev sections : Sections
sections = record {
  signing_service = relay_config.signing_service;
  collector_service = relay_config.collector_service;
}

abbrev new_store : Bytes → Result (List Write)
new_store path = ok []

abbrev running : Running (List Write)
running = record {
  config = settled;
  logging = record {
    file_name = settled.log_output_path;
    rotation = record { max_size = 10; max_backup = 2; max_age = 2; compress = false };
    to_stdout = true;
    json = true;
    for_production = false;
  };
  has_pusher = true;
  ready = ready;
  db =
      (start_relay journal digest refusing (ok []) (ok tt) (Service.relay_config settled sections)
        []).1;
}

is_running :
    start_service os rotated journal digest refusing flags
      (ok yaml)
      sections
      (ok [])
      (ok tt)
      new_store
    ≡ ok running
unfolding start_service init_log init_metrics get_log_config init_config get_path validate_directory
    validate_chain_config start_relay set_up_collector setup_signer dial host_port
    setup_screen_service create_namespace create_bucket setup_collector chain_id_to_address lookup
    eqb eqb_ℤ big_string itoa emit
is_running = refl

start_service-IsStarted_example :
    IsStarted os journal refusing flags (ok yaml) sections new_store running
start_service-IsStarted_example =
    start_service-IsStarted os rotated journal digest refusing flags (ok yaml) sections (ok [])
      (ok tt) new_store running is_running
