-- ===== src/Decoder/Process/Runs.antt =====
-- decoder/decoder.go: the theorems at concrete inputs.
use heplify.Common.{◌≡◌, refl, [], ◌∷◌, ◌++◌, Option, none, some, ok}
use heplify.Common.Bytes.{Bytes, put_uint32}
use heplify.Publish.Hep.{Packet}
use heplify.Decoder.Ng.{Value}
use heplify.Decoder.Ng.Numbers.{decimal}
use heplify.Decoder.Correlator.Search.{index, has_prefix}
use heplify.Decoder.Correlator.Sdp.{sdp_entry}
use heplify.Decoder.Correlator.Sample.{
  assoc, assoc-KeepsSet, message, address, message_entry, json_of, parsed, rtcp_rest, rtcp_parsing,
}
use heplify.Decoder.Process.Payload.{all_protocols, Decoder, process_transport}
use heplify.Decoder.Process.Calls.{after_rtcp, process_transport-call}

abbrev ng_json_of : Value → Option Bytes
ng_json_of v = none

-- An address is its own text here.
abbrev text_of : Bytes → Bytes
text_of ip = ip

abbrev captured : Packet
captured = record {
  version = 2;
  protocol = 17;
  src_ip = some address;
  dst_ip = some address;
  src_port = 0;
  dst_port = 0;
  tsec = 1;
  tmsec = 2;
  proto_type = 0;
  node_id = 9;
  node_pw = none;
  payload = none;
  cid = none;
  vlan = 0;
}

abbrev fresh : Decoder assoc text_of json_of ng_json_of
fresh = record {
  stats = record {
    dns_count = 0;
    rtcp_count = 0;
    rtcp_fail_count = 0;
    tcp_count = 0;
    udp_count = 0;
    unknown_count = 0;
  };
  sip = [];
  sdp = [];
  rtcp = [];
}

no_sdp : sdp_entry (128 ∷ 200 ∷ rtcp_rest) ≡ none
unfolding sdp_entry index has_prefix
no_sdp = refl

process_transport-call_example :
    (sent : Packet) × (d1 : Decoder assoc text_of json_of ng_json_of) × (process_transport assoc
        text_of json_of ng_json_of all_protocols []
        (record {
          udp = none;
          tcp = some (record { src_port = 5060; dst_port = 5060; payload = message });
          dns = none;
        })
        captured
        fresh
      ≡ ok (some sent, d1))
    × (process_transport assoc text_of json_of ng_json_of all_protocols []
          (record {
            udp =
                some (record { src_port = 4001; dst_port = 6001; payload = 128 ∷ 200 ∷ rtcp_rest });
            tcp = none;
            dns = none;
          })
          captured
          d1
        ≡ ok (
          some (record captured {
            src_port = 4001;
            dst_port = 6001;
            payload = some (5 ∷ []);
            cid = some (97 ∷ 49 ∷ []);
            proto_type = 5;
          }),
          after_rtcp assoc text_of json_of ng_json_of ((put_uint32 5, 97 ∷ 49 ∷ []) ∷ []) d1,
        ))
process_transport-call_example =
    process_transport-call assoc text_of json_of ng_json_of [] message address 4001 6001
      (97 ∷ 49 ∷ []) (put_uint32 5) (5 ∷ []) 128 200 rtcp_rest parsed 5060 5060 captured captured
      fresh ((address ++ decimal 4001, 97 ∷ 49 ∷ []) ∷ []) ((put_uint32 5, 97 ∷ 49 ∷ []) ∷ [])
      assoc-KeepsSet message_entry refl refl refl refl (refl, refl) no_sdp rtcp_parsing refl refl
      refl refl
