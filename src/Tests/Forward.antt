-- ===== src/Tests/Forward.antt =====
-- The client-repeat forwards at a text and at two traces.
use openhop_core.Prelude.{
  ◌+◌, ◌≡◌, ◌≢◌, ◌<◌, refl, true, false, inl, some, [], ◌∷◌, ◌++◌, replicate, take, arith,
}
use openhop_core.Prelude.Bytes.{bytes_eq}
use openhop_core.Prelude.Int.{low_byte, negsuc}
use openhop_core.Prelude.Outcome.{ok, raise, value_error}
use openhop_core.Protocol.PathLen
use openhop_core.Protocol.PathLen.{get_path_byte_len, is_valid_path_len, is_path_at_max_hops}
use openhop_core.Protocol.Packet.{
  Packet, has_transport_codes, get_route_type, get_payload_type, is_route_direct,
  get_path_hash_size, get_path_hash_count,
}
use openhop_core.Protocol.Wire.{write_to}
use openhop_core.Protocol.Wire.Frame.{IsSendable}
use openhop_core.Node.Forward.{
  copy_packet_for_forward, starts_with_self, build_flood_forward, build_direct_forward,
  build_trace_forward, put_snr, build_client_repeat_forward,
}
use openhop_core.Node.Forward.Flood.{IsRelayable, SameMessage, build_flood_forward-room}
use openhop_core.Node.Forward.Direct.{build_direct_forward-next_hop}
use openhop_core.Node.Forward.Trace.{build_trace_forward-appends, build_trace_forward-overflow}
use openhop_core.Node.Forward.Whole.{Relay, forward-Relay}
use openhop_core.Tests.Samples.{text, routed, trace, self_key, toy_sha256}

text-IsRelayable : IsRelayable text
unfolding is_valid_path_len has_transport_codes get_route_type get_path_byte_len
text-IsRelayable = record {
  path_len = refl;
  sendable = record {
    path = refl;
    payload = refl;
    size = omega arith;
    header = omega arith;
    path_len = omega arith;
    codes = inl refl;
  };
}

routed-IsRelayable : IsRelayable routed
unfolding is_valid_path_len has_transport_codes get_route_type get_path_byte_len
routed-IsRelayable = record {
  path_len = refl;
  sendable = record {
    path = refl;
    payload = refl;
    size = omega arith;
    header = omega arith;
    path_len = omega arith;
    codes = inl refl;
  };
}

trace-IsRelayable : IsRelayable trace
unfolding is_valid_path_len has_transport_codes get_route_type get_path_byte_len
trace-IsRelayable = record {
  path_len = refl;
  sendable = record {
    path = refl;
    payload = refl;
    size = omega arith;
    header = omega arith;
    path_len = omega arith;
    codes = inl refl;
  };
}

-- The trace after 63 hops, with 73 bytes of payload.
abbrev long_trace : Packet
long_trace = record trace {
  path = replicate 63 4;
  path_len = 63;
  payload = replicate 72 0 ++ 1 ∷ [];
  payload_len = 73;
}

long_trace-IsSendable : IsSendable long_trace
unfolding has_transport_codes get_route_type get_path_byte_len
long_trace-IsSendable = record {
  path = refl;
  payload = refl;
  size = omega arith;
  header = omega arith;
  path_len = omega arith;
  codes = inl refl;
}

no_trace : get_payload_type text ≢ 9
unfolding get_payload_type
no_trace = ground arith

routed_no_trace : get_payload_type routed ≢ 9
unfolding get_payload_type
routed_no_trace = ground arith

routed_direct : is_route_direct routed ≡ true
unfolding is_route_direct get_route_type
routed_direct = refl

routed_hops : 0 < get_path_hash_count routed
unfolding PathLen.get_path_hash_count
routed_hops = omega arith

starts : starts_with_self routed self_key ≡ true
unfolding starts_with_self bytes_eq PathLen.get_path_hash_size
starts = refl

text_room : is_path_at_max_hops text.path_len ≡ false
unfolding is_path_at_max_hops
text_room = refl

abbrev trace_forward : Packet
trace_forward = record (copy_packet_for_forward trace) {
  path = low_byte (negsuc 7) ∷ [];
  path_len = 1;
}

trace_built : build_trace_forward trace self_key ≡ ok (some trace_forward)
unfolding build_trace_forward put_snr bytes_eq
trace_built = refl

abbrev long_forward : Packet
long_forward = record (copy_packet_for_forward long_trace) {
  path = replicate 63 4 ++ low_byte (negsuc 7) ∷ [];
  path_len = 64;
}

long_built : build_trace_forward long_trace self_key ≡ ok (some long_forward)
unfolding build_trace_forward put_snr bytes_eq
long_built = refl

forward-Relay_example : Relay toy_sha256 text (build_client_repeat_forward (some self_key) text)
forward-Relay_example =
    forward-Relay toy_sha256 text self_key text-IsRelayable no_trace (omega arith)

build_flood_forward-room_example :
    (f : Packet) × (build_flood_forward text self_key ≡ ok (some f))
    × IsRelayable f
    × SameMessage text f
    × (f.path ≡ text.path ++ take (get_path_hash_size text) self_key)
    × (get_path_hash_size f ≡ get_path_hash_size text)
    × (get_path_hash_count f ≡ get_path_hash_count text + 1)
build_flood_forward-room_example =
    build_flood_forward-room text self_key text-IsRelayable (omega arith) text_room

build_direct_forward-next_hop_example :
    (f : Packet) × (build_direct_forward routed self_key ≡ ok (some f))
    × IsRelayable f
    × SameMessage routed f
    × (routed.path ≡ take (get_path_hash_size routed) self_key ++ f.path)
    × (get_path_hash_size f ≡ get_path_hash_size routed)
    × (get_path_hash_count f + 1 ≡ get_path_hash_count routed)
build_direct_forward-next_hop_example =
    build_direct_forward-next_hop routed self_key routed-IsRelayable routed_hops starts

build_trace_forward-appends_example :
    IsRelayable trace_forward
    × SameMessage trace trace_forward
    × (trace_forward.path ≡ trace.path ++ low_byte trace.snr ∷ [])
    × (trace_forward.path_len ≡ trace.path_len + 1)
build_trace_forward-appends_example =
    build_trace_forward-appends trace trace_forward self_key trace-IsRelayable (omega arith)
      trace_built

build_trace_forward-overflow_example : write_to long_forward ≡ raise value_error
build_trace_forward-overflow_example =
    build_trace_forward-overflow long_trace long_forward self_key long_trace-IsSendable refl
      long_built
