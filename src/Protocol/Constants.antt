-- ===== src/Protocol/Constants.antt =====
-- protocol/constants.py: the constants that the modelled code reads.
use openhop_core.Prelude.{ℕ}

abbrev pub route_type_transport_flood : ℕ
route_type_transport_flood = 0x00

abbrev pub route_type_flood : ℕ
route_type_flood = 0x01

abbrev pub route_type_direct : ℕ
route_type_direct = 0x02

abbrev pub route_type_transport_direct : ℕ
route_type_transport_direct = 0x03

abbrev pub payload_type_ack : ℕ
payload_type_ack = 0x03

abbrev pub payload_type_trace : ℕ
payload_type_trace = 0x09

abbrev pub max_supported_payload_version : ℕ
max_supported_payload_version = 0

abbrev pub max_packet_payload : ℕ
max_packet_payload = 184

abbrev pub max_path_size : ℕ
max_path_size = 64

abbrev pub max_hash_size : ℕ
max_hash_size = 32

abbrev pub path_hash_count_mask : ℕ
path_hash_count_mask = 0x3F

abbrev pub payload_type_txt_msg : ℕ
payload_type_txt_msg = 0x02

abbrev pub payload_type_path : ℕ
payload_type_path = 0x08

abbrev pub payload_type_multipart : ℕ
payload_type_multipart = 0x0A

abbrev pub payload_type_raw_custom : ℕ
payload_type_raw_custom = 0x0F

abbrev pub cipher_block_size : ℕ
cipher_block_size = 16

abbrev pub max_text_len : ℕ
max_text_len = 160

abbrev pub txt_type_plain : ℕ
txt_type_plain = 0

abbrev pub txt_type_cli_data : ℕ
txt_type_cli_data = 1

abbrev pub txt_type_signed_plain : ℕ
txt_type_signed_plain = 2

abbrev pub txt_type_cli_command : ℕ
txt_type_cli_command = 3

abbrev pub payload_type_advert : ℕ
payload_type_advert = 0x04

abbrev pub max_advert_data_size : ℕ
max_advert_data_size = 32

abbrev pub pub_key_size : ℕ
pub_key_size = 32

abbrev pub signature_size : ℕ
signature_size = 64

abbrev pub timestamp_size : ℕ
timestamp_size = 4

abbrev pub advert_flag_is_chat_node : ℕ
advert_flag_is_chat_node = 0x01

abbrev pub advert_flag_is_repeater : ℕ
advert_flag_is_repeater = 0x02

abbrev pub advert_flag_is_room_server : ℕ
advert_flag_is_room_server = 0x03

abbrev pub advert_flag_is_sensor : ℕ
advert_flag_is_sensor = 0x04

abbrev pub advert_flag_has_location : ℕ
advert_flag_has_location = 0x10

abbrev pub advert_flag_has_feature1 : ℕ
advert_flag_has_feature1 = 0x20

abbrev pub advert_flag_has_feature2 : ℕ
advert_flag_has_feature2 = 0x40

abbrev pub advert_flag_has_name : ℕ
advert_flag_has_name = 0x80
