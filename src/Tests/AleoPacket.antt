-- ===== src/Tests/AleoPacket.antt =====
-- The text of a packet, as the aleo node answers with it, is read.
use verulink.Base.{◌≡◌, refl, false, [], ◌∷◌, ◌++◌, Bytes, codes, eqb, ok, ◌>>=◌}
use verulink.Chain.BigInt.{pos, atoi, scan, set_string}
use verulink.Aleo.Numerals.{set_string_any_base}
use verulink.Aleo.Fields.{trim, fields, missing, parse_message}
use verulink.Aleo.Parse.{parse_aleo_packet, parse_aleo_eth_addr_to_hex_string}

abbrev answer : Bytes
answer =
    b'"'
      ∷ (codes "{\\n  version: 1u8,\\n  sequence: 7u64,\\n  source: {\\n    chain_id: 2u128,"
          ++ (codes "\\n    addr: aleo1x\\n  },\\n  destination: {\\n    chain_id: 1u128,\\n    a"
              ++ (codes
                    "ddr: [ 0u8, 0u8, 0u8, 0u8, 0u8, 0u8, 0u8, 0u8, 0u8, 0u8, 0u8, 0u8, 1u8, 2u8,"
                  ++ (codes
                        " 3u8, 4u8, 5u8, 6u8, 7u8, 8u8, 9u8, 10u8, 11u8, 12u8, 13u8, 14u8, 15u8, 16u8"
                      ++ (codes
                            ", 17u8, 18u8, 19u8, 20u8 ]\\n  },\\n  message: {\\n    dest_token_address: ["
                          ++ (codes
                                " 0u8, 0u8, 0u8, 0u8, 0u8, 0u8, 0u8, 0u8, 0u8, 0u8, 0u8, 0u8, 1u8, 2u8, 3u8, "
                              ++ (codes
                                    "4u8, 5u8, 6u8, 7u8, 8u8, 9u8, 10u8, 11u8, 12u8, 13u8, 14u8, 15u8, 16u8, 17u8"
                                  ++ (codes
                                        ", 18u8, 19u8, 20u8 ],\\n    sender_address: aleo1y,\\n    receiver_address: "
                                      ++ (codes
                                            "[ 0u8, 0u8, 0u8, 0u8, 0u8, 0u8, 0u8, 0u8, 0u8, 0u8, 0u8, 0u8, 1u8, 2u8, 3u8,"
                                          ++ (codes
                                                " 4u8, 5u8, 6u8, 7u8, 8u8, 9u8, 10u8, 11u8, 12u8, 13u8, 14u8, 15u8, 16u8, 17u"
                                              ++ (codes
                                                  "8, 18u8, 19u8, 20u8 ],\\n    amount: 100u128\\n  },\\n  height: 55u64\\n}")))))))))))
    ++ b'"' ∷ []

abbrev twenty : Bytes
twenty =
    1 ∷ 2 ∷ 3 ∷ 4 ∷ 5 ∷ 6 ∷ 7 ∷ 8 ∷ 9 ∷ 10 ∷ 11 ∷ 12 ∷ 13 ∷ 14 ∷ 15 ∷ 16 ∷ 17 ∷ 18 ∷ 19 ∷ 20 ∷ []

answer_read :
    (do p ← parse_message answer; parse_aleo_packet (λ b. b) p)
    ≡ ok (record {
      version = 1;
      source = record { chain_id = pos 2; address = codes "aleo1x" };
      destination = record { chain_id = pos 1; address = twenty };
      sequence = 7;
      message = record {
        dest_token_address = twenty;
        sender_address = codes "aleo1y";
        amount = pos 100;
        receiver_address = twenty;
      };
      height = 55;
      is_missed = false;
    })
unfolding parse_message trim fields missing eqb parse_aleo_packet parse_aleo_eth_addr_to_hex_string
    set_string_any_base set_string atoi scan
answer_read = refl
