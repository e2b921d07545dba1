-- ===== src/Decoder/Process/Sample.antt =====
-- decoder/decoder.go: a concrete decoder, with a frame that it hands on.
use heplify.Common.{
  ℕ, ◌-◌, List, Option, true, ltb, if◌then◌else◌, ap, sym, ◌∙◌, arith, ◌+◌, ◌≡◌, refl, Bool, false,
  [], ◌∷◌, ◌++◌, none, some, ok, drop,
}
use heplify.Common.Bytes.{Bytes, bytes_eq, bytes_eq_iff}
use heplify.Publish.Hep.{Packet}
use heplify.Ip4defrag.Defragmenter.{Network}
use heplify.Decoder.Correlator.Search.{index, has_prefix}
use heplify.Decoder.Correlator.Cache.{Cache, Expires}
use heplify.Decoder.Correlator.Sample.{assoc, json_of}
use heplify.Decoder.Machine.Labels.{choose}
use heplify.Decoder.Machine.Scan.{
  states, select, goto, marked, with_cseq, arrive, step, exec, parse_cseq,
}
use heplify.Decoder.Machine.Grammar.{one_of}
use heplify.Decoder.Process.Payload.{
  sip_only, finish_payload, process_dns, process_udp, process_transport,
}
use heplify.Decoder.Process.Capture.{Gopacket, Outside, Config, CaptureInfo, Agent, new_decoder}
use heplify.Decoder.Process.Front.{
  is_wanted, check_duplicate, check_wanted, check_payload, check_method, inside_gre, with_vlan,
  process_ip4, process_ip6, answer_of, process_network, process_frame, process,
}
use heplify.Ownlayers.Sip.Words.{to_upper}

-- Flows are told apart by the source address.
abbrev pub by_source : Network
by_source = record {
  Flow = Bytes;
  network_flow = λ ip. ip.src_ip;
  same = bytes_eq;
  same_iff = bytes_eq_iff;
}

-- A frame is its bytes here, and carries a UDP datagram behind the first 42.
abbrev pub bare : Gopacket
bare = record {
  Frame = Bytes;
  new_packet = λ b. b;
  gre = λ f. none;
  dot1q = λ f. none;
  ip4 = λ f. none;
  ip6 = λ f. none;
  transport = λ f. record {
    udp = some (record { src_port = 5060; dst_port = 5060; payload = drop 42 f });
    tcp = none;
    dns = none;
  };
  decode_next = λ ip f. f;
}

abbrev pub outside : Outside
outside = record {
  cache = assoc;
  ip_string = λ b. b;
  rtcp_json = json_of;
  ng_json = λ v. none;
  net = by_source;
  gp = bare;
}

-- The methods to discard are "OPTIONS," and so OPTIONS and the empty text.
abbrev pub settings : Bool → Config
settings dedup = record {
  mode = sip_only;
  dedup = dedup;
  filter = [];
  discard = [];
  discard_method = 79 ∷ 80 ∷ 84 ∷ 73 ∷ 79 ∷ 78 ∷ 83 ∷ 44 ∷ [];
  with_erspan = false;
  hep_node_id = 2002;
  hep_node_pw = [];
}

abbrev pub info : CaptureInfo
info = record { unix = 5; nanosecond = 7000 }

abbrev pub agent : Bool → Agent outside
agent dedup = new_decoder outside (settings dedup) [] [] []

abbrev pub headers : Bytes
headers =
    0 ∷ 0 ∷ 0 ∷ 0 ∷ 0 ∷ 0 ∷ 0 ∷ 0 ∷ 0 ∷ 0 ∷ 0 ∷ 0 ∷ 0 ∷ 0 ∷ 0 ∷ 0 ∷ 0 ∷ 0 ∷ 0 ∷ 0 ∷ 0 ∷ 0 ∷ 0 ∷ 0
    ∷ 0 ∷ 0 ∷ 0 ∷ 0 ∷ 0 ∷ 0 ∷ 0 ∷ 0 ∷ 0 ∷ 0 ∷ 0 ∷ 0 ∷ 0 ∷ 0 ∷ 0 ∷ 0 ∷ 0 ∷ 0 ∷ []

-- "CSeq: 1 BYE" and a line break, and a payload without a CSeq line
abbrev pub bye_frame : Bytes
bye_frame = headers ++ 67 ∷ 83 ∷ 101 ∷ 113 ∷ 58 ∷ 32 ∷ 49 ∷ 32 ∷ 66 ∷ 89 ∷ 69 ∷ 13 ∷ 10 ∷ []

abbrev pub bare_frame : Bytes
bare_frame = headers ++ 1 ∷ 2 ∷ []

abbrev pub sent : Packet
sent = record {
  version = 0;
  protocol = 0;
  src_ip = none;
  dst_ip = none;
  src_port = 5060;
  dst_port = 5060;
  tsec = 5;
  tmsec = 7;
  proto_type = 1;
  node_id = 2002;
  node_pw = some [];
  payload = some (67 ∷ 83 ∷ 101 ∷ 113 ∷ 58 ∷ 32 ∷ 49 ∷ 32 ∷ 66 ∷ 89 ∷ 69 ∷ 13 ∷ 10 ∷ []);
  cid = none;
  vlan = 0;
}

abbrev pub counted : Agent outside → Agent outside
counted a = record a {
  inner = record (a.inner) {
    stats = record (a.inner.stats) { udp_count = a.inner.stats.udp_count + 1 };
  };
}

pub bye_sent :
    process outside (settings false) [] bye_frame info (agent false)
    ≡ ok (some sent, counted (record (agent false) { cseq = some (66 ∷ 89 ∷ 69 ∷ []) }))
unfolding process process_frame process_network process_ip4 process_ip6 inside_gre with_vlan
    answer_of process_transport process_udp process_dns finish_payload check_method check_payload
    check_wanted check_duplicate is_wanted new_decoder one_of to_upper bytes_eq index has_prefix
    parse_cseq exec step arrive with_cseq marked goto choose select states
bye_sent = refl

-- A cache whose entries hold the seconds that they have left.
abbrev pub Timed : Type 0
Timed = List (Bytes × (Bytes × ℕ))

abbrev pub timed_get : Bytes → Timed → Option Bytes
timed_get k [] = none
timed_get k ((k', (v, left)) ∷ s) =
    let further = timed_get k s in
    if bytes_eq k k' then (if ltb 0 left then some v else none) else further

abbrev pub timed_later : ℕ → Timed → Timed
timed_later t [] = []
timed_later t ((k, (v, left)) ∷ s) = (k, (v, left - t)) ∷ timed_later t s

abbrev pub timed : Cache
timed = record {
  Store = Timed;
  get = timed_get;
  set = λ k v seconds s. some ((k, (v, seconds)) ∷ s);
}

pub timed-Expires : Expires timed timed_later
timed-Expires k v seconds t s s' positive e =
    let some_of : Option Timed → Timed = λ o. elim o [ none ↦ s | some x ↦ x ] in
    let same : (k, (v, seconds)) ∷ s ≡ s' = ap some_of e in
    let hit : bytes_eq k k ≡ true = (bytes_eq_iff k k).1 refl in
    let left : ltb 0 (seconds - t) ≡ ltb t seconds = ground arith in
    ap (λ x. timed_get k (timed_later t x)) (sym same) ∙ rw (hit, left) refl

abbrev pub outside_timed : Outside
outside_timed = record {
  cache = timed;
  ip_string = λ b. b;
  rtcp_json = json_of;
  ng_json = λ v. none;
  net = by_source;
  gp = bare;
}
