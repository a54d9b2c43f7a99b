-- ===== src/Proto.antt =====
-- The generated message types of src/protobuf/ons_pb2/ons.pb.go: the stored messages, the
-- transaction payload, and the nil-safe getters. The bookkeeping fields XXX_… and the
-- reflection methods belong to the protobuf runtime and are left out. An int32 is kept as its
-- bit pattern, a number below 2 ^ 32.
pub mod State
pub mod Payload
pub mod Getters
