-- ===== src/Net/Protocols.antt =====
-- The results that the protocols of src/include/driver/network/protocols/protocols.h give.

pub data ProtocolResult : Type 0 where
  proto_ok : ProtocolResult
  proto_drop : ProtocolResult
  proto_error_unsupport : ProtocolResult
  proto_error_exceed_max_size : ProtocolResult
  proto_error_null_ptr : ProtocolResult
  proto_error_checksum : ProtocolResult
  proto_error_connect_failed : ProtocolResult
  proto_error_send_failed : ProtocolResult
  proto_error_rebind : ProtocolResult
  proto_error_port_conflict : ProtocolResult
  proto_error_cannot_find : ProtocolResult
  proto_error_no_space_left : ProtocolResult
  proto_error_cannot_find_route : ProtocolResult
  proto_error_not_connected : ProtocolResult
  proto_error_net_unreachable : ProtocolResult
  proto_error_host_unreachable : ProtocolResult
  proto_error_port_unreachable : ProtocolResult
  proto_error_other : ProtocolResult
