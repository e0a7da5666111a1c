-- ===== src/Master.antt =====
-- engine_master.go and grpc/server/aline_grpc_server.go: the master and its connections.
pub mod Server
pub mod Engine
pub mod Retry
pub mod Answers
