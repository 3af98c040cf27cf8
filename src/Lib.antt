-- ===== src/Lib.antt =====
-- A verification library for openhop_core, a Python implementation of a LoRa mesh node: packets on
-- the wire, the decisions of a node that relays them, the serial framing towards a modem, and the
-- stores of a companion device. All paths are from the repository's root.
--
-- The parts and how they interact. A radio hands bytes to the dispatcher
-- (src/openhop_core/node/dispatcher.py), which parses them into a Packet
-- (src/openhop_core/protocol/packet.py), records the region they arrived under
-- (protocol/region_map.py), asks the duplicate filters (protocol/packet_filter.py), may build a
-- forward, and hands the packet to the handler of its type (src/openhop_core/node/handlers). A text
-- message, which the builder (protocol/packet_builder.py) makes with a CRC that its sender waits for, is
-- answered with ACK packets, and the ACK handlers wake the waiter. What a companion receives it keeps in the stores of src/openhop_core/companion. A modem is
-- reached through KISS frames (src/openhop_core/hardware/kiss_modem_wrapper.py).
--
-- Which file models what:
--   Prelude: Boolean tests, lists, bytes, Python's dict and OrderedDict as association lists
--     (Prelude/Dict), signed integers, and code that may raise (Prelude/Outcome). A Python exception
--     is the value `raise e`; a method that mutates its object returns the object beside its outcome.
--   Protocol/PathLen: PathUtils of protocol/packet_utils.py, on the path_len byte.
--   Protocol/Header, Protocol/Packet, Protocol/PathOps: the Packet object, its getters and the methods
--     that set its path.
--   Protocol/Wire: Packet.write_to and Packet.read_from; Frame is about what can be sent,
--     RoundTrip and Accepted about reading what was written and writing what was read.
--   Protocol/Hashing: calculate_packet_hash and get_crc, over SHA-256 as a parameter.
--   Protocol/Filter: PacketFilter (Blacklist, Expiry) and PacketHashCache (Cache). The clock is an
--     argument, in whole ticks.
--   Protocol/Region: transport_keys.py, region_map.py and Dispatcher._apply_flood_scope. SHA-256 and
--     HMAC-SHA256 are parameters; the theorems that need it assume that they return 32 bytes.
--   Protocol/Crypto: encrypt_then_mac and mac_then_decrypt of crypto.py. AES and HMAC-SHA256 are the
--     operations of the record Cipher, and IsCipher has their documented laws.
--   Protocol/Builder: PacketBuilder's ACKs, multi-acks, path returns and raw data; Text has its text
--     messages.
--   Protocol/Advert: adverts: their application data (Bits, Fields, Codec), create_advert, and the parsers
--     of protocol/utils.py. Signing and verifying are parameters.
--   Hardware/Kiss: the encoder, the byte decoder and the bulk decoder of the KISS modem wrapper. What
--     a complete frame or a frame error does is a parameter (`process`, `frame_error`).
--   Hardware/Modem: what the modem wrapper does with a frame: packets that wait for their metrics
--     (Order, Bounds) and the responses to commands (Responses).
--   Node/Receive: _process_received_packet and _dispatch; Repeats is about frames that come again, and
--     Echo about a node's own forward.
--   Node/Acks: expect_ack, _discard_ack_waiter, _register_ack_received and the pruning, as calls in any
--     order (Wakeup); Handler has the ACK and multipart handlers and crypto_helpers.py (Marking,
--     Extraction, PathReturn).
--   Node/Text: the text message handler: the sender (Sender), the parts of the plaintext (Delivery), the
--     ACK hash (Answer), a message from its builder on (Receipt), the ACK packets (Confirm, Journey).
--   Node/Advert: the advert handler: what it has checked of an advert that it accepts (Trust), and an
--     advert from its builder on (Announce).
--   Node/Airtime: the airtime budget, and how much it admits (Limit).
--   Node/Forward: the forwards that the dispatcher builds, by kind of packet (Flood, Direct, Trace) and
--     together (Whole).
--   Companion: MessageQueue (Queue), PathCache (Paths), ChannelStore (Channels), ContactStore with its
--     proxies (Contacts) and StatsCollector (Stats).
--   Tests: sample packets and tables, and the theorems applied to them.
--
-- Numbers are natural numbers; where Python's range matters (bytes, struct, bytearray) the check that
-- raises is written out. Floats are counts of a small unit: SNR in quarters of a decibel, positions in
-- microdegrees, times in ticks. The bulk KISS decoder runs on fuel, one round more than there are
-- bytes, and every round consumes a byte. All other loops are structural recursion.
--
-- Not modelled: the radio drivers and transports, threads and asyncio, the cryptography that the
-- program calls, logging, the companion's frame server and its asynchronous glue, the payload handlers
-- other than those for ACKs, texts and adverts, logins and requests of the packet builder, the sending
-- side of the dispatcher, and the conversions of the contact store from and to untyped dictionaries.
pub mod Prelude
pub mod Protocol
pub mod Hardware
pub mod Node
pub mod Companion
pub mod Tests
