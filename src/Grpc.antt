-- ===== src/Grpc.antt =====
-- internal/adapters/grpc and worker/main.go: the two ends of the gRPC services. The streams and the
-- generated code are not under the source; what they deliver is an argument.
pub mod Server
pub mod Client
pub mod Registration
pub mod Words
pub mod Readers
pub mod Streams
pub mod Late
