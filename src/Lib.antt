-- ===== src/Lib.antt =====
-- heplify: a capture agent that turns SIP, RTCP and log packets into HEP messages.
--
-- Paths below are from the repository's root. Byte slices are lists of numbers, a slice that may
-- be nil is an `Option`, and a Go call comes to an `Outcome`: a value, an error, or a panic.
-- `stuck` is no Go outcome: it says that a loop of the model ran out of fuel.
--
-- - Common: lists, tests, big-endian numbers, outcomes; it models no code of its own.
-- - Publish/Hep: publish/marshal.go. `Encode` is EncodeHEP and makeHEPChuncks with the package
--   variables that they write through, `Decode` is DecodeHEP, parse and parseHep; the loop over
--   the chunks takes as fuel the message's length, since each round moves on by 6 bytes at least.
--   Not modelled: HepMsg.String, which only prints.
-- - Publish/Protobuf: publish/hep.pb.go, Size and Marshal, and the branch of EncodeHEP for them; `Unmarshal`
--   is Unmarshal with skipHep. A number takes ten rounds at most, since a uint64 has ten groups of seven
--   bits; the loop of Unmarshal takes the length of the data and one, and skipHep twice as much, since a
--   group costs a call and a round for each of its fields. proto.Marshal calls Marshal of the message.
--   Not modelled: the generated getters, comparisons and printers.
-- - Publish/Output: publish/hep.go, the connection to the HEP server, over bufio.Writer, which is written
--   out, and a network as a parameter. The fuel of a buffered write is the message's length and two: a
--   connection that works takes a byte at least, and one that takes all ends the loop after one round. One
--   that takes nothing and gives no error, which io.Writer forbids, would keep bufio's loop going for ever;
--   here the loop stops there.
-- - Pipeline: OnPacket of sniffer/sniffer.go, publish/publisher.go, and Output and Start of
--   publish/hep.go, as steps (`advance`) of goroutines that are taken in any order (`Reach`), with their
--   queues of 20000 and what each holds while it waits. A step is atomic, so the race on pubCount is not
--   modelled, and nothing is if Process panics, since the program ends. `Sequential` is the
--   specification: one frame after the other.
-- - Publish/File: publish/file.go, what it logs of a message.
-- - Sniffer: sniffer/sniffer.go: `Setup` is New with setFromConfig and NewWorker, over what the calls of
--   libpcap and af_packet answer, and `Run` the loop Run with Reopen over the answers that the data
--   source gives (`Event`); its `run_file` is the same loop over libpcap as a parameter (`Offline`), which
--   answers the reads of a file and opens it again, bounded in its rounds. `Buffers` is
--   sniffer/afpacket.go with ints of 32 or 64 bits, and `Dump` the loop dumpPcap of
--   sniffer/pcap.go without Zip, whose failures are in what it receives. Not modelled: the channel
--   between Run and dumpPcap, a call of Stop while Run waits, the benchmark and the wait for a key, and
--   sniffer/device.go, whose resolveDeviceName is never called and whose list is only printed.
-- - Ip4defrag: ip4defrag/defrag.go. `FragmentList` is fragmentList with insert and build, the
--   uint16 counters written with their wrap; `Defragmenter` is IPv4Defragmenter, its map an
--   association list, over gopacket's NetworkFlow as a parameter (`Network`). `Datagram` says what
--   fragments of a datagram are; `deliver` is a run of calls of insert, no function of the code.
--   Times are numbers. Here calls run one after the other; `Shared` has the map of pointers and the steps
--   between which the lock is given up.
-- - Protos/Rtcp: protos/rtcp.go, ParseRTCP section by section, its loop on the packet's length as
--   fuel, since each round takes 4 bytes at least. encoding/json is a parameter; of the messages only
--   their kind is kept. `Sections` describes the bytes of well-formed sections.
-- - Ownlayers/Rtp: ownlayers/rtp.go, DecodeFromBytes and decodeRTP. What is left of the packet behind
--   the offset takes the offset's place.
-- - Decoder/Ng: the bencode parser of decoder/util.go, unmarshalNG, parseNG and readUntil. Its fuel
--   is twice the length of the value's bytes and one, since each value takes 2 bytes at least, and
--   the loops of a list or a dictionary spend one unit more for each. A slice may reach behind the
--   message, up to the capacity: what lies there is an argument. `Encode` describes bencoding.
-- - Decoder/Correlator: decoder/correlator.go. `Search` is bytes.Index and the texts looked for;
--   `Cache` is what the code calls of freecache, a parameter; its `get` and `set` are calls at one time,
--   and `Expires` says what a set entry is once the clock has gone on; `Sdp` is cacheSDPIPPort, `Rtcp` is
--   correlateRTCP over Protos/Rtcp, `Log` is correlateLOG and correlateNG over Decoder/Ng. Go's random
--   order over a map is the order of the list that `visit` is given. net.IP.String and encoding/json
--   are parameters.
-- - Ownlayers/Sip: ownlayers/sip.go. `Words` holds the versions, methods and compact names, `Decode`
--   the layer's DecodeFromBytes, ParseFirstLine, GetHeader and GetFirstHeader; the loop over the lines
--   has the buffer's length and one as fuel, since each round takes a byte at least. Letters change
--   case within ASCII only.
-- - Decoder/Process: decoder/decoder.go. `Front` is Process from the captured bytes on: the deduplication,
--   the filters, the tunnel, the VLAN and the call of the defragmenter; `Payload` goes on from the UDP
--   and TCP layers, with the counters and caches that it changes. `Capture` holds the whole decoder, the
--   settings and gopacket, a parameter that finds the layers; of a DNS layer what protos.ParseDNS makes of
--   it. A layer has the type that it is looked up by, and a fragment has an application layer.
-- - Decoder/Machine: decoder/machine.go, the scanner parseCSeq that Ragel generates. `Tables` holds the
--   switch of every state as the list of its cases, `Scan` the jump table, the actions and the run over
--   the bytes, `Grammar` the grammar of decoder/machine.rl as languages. `Front` and `Spell` say what the
--   bytes read so far end in, `Path` and `Finds` where the words of the grammar lead, `Contract` what the
--   scanner promises.
--
-- Not modelled at all: the small records of protos, config and main.go.
pub mod Common
pub mod Decoder
pub mod Ip4defrag
pub mod Ownlayers
pub mod Pipeline
pub mod Protos
pub mod Publish
pub mod Sniffer
