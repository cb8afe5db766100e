-- ===== src/Error.antt =====
-- src/error.rs: the kinds of error. The kinds that the store's, the session's, the retention's and
-- the I/O errors hold are left out. `T` is the kind of the transport's error, so `transport` stands
-- for `Mqtt` and for `Grpc`.
pub data InterfaceError : Type 0 where
  invalid path interface_not_found mapping_not_found : InterfaceError
  aggregation interface_type ownership mapping_type : InterfaceError
  timestamp unset object_path mapping_required : InterfaceError

pub data ErrorKind (T : Type 0) : Type 0 where
  interface : InterfaceError → ErrorKind T
  io store session retention disconnected : ErrorKind T
  transport : T → ErrorKind T
