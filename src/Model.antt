-- ===== src/Model.antt =====
-- model/ and the messages of grpc/api: the data that the parts of the engine pass round.
pub mod Status
pub mod Message
pub mod Job
pub mod Detail
pub mod ActionResult
pub mod StageSort
