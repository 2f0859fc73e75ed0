-- ===== src/Cpp.antt =====
-- The C++ program (C++/inc, C++/src): components that handle the events of a job dispatcher, and the
-- jobs that they give to it. The dispatcher is a library of its own: a handler's calls of it are a
-- part of the handler's result, in their order.
pub mod Events
pub mod UniqueId
pub mod ServiceHandler
pub mod FrameCoord
pub mod GrayscaleImage
pub mod GrayscaleImageJob
pub mod EthTerm
pub mod Connection
pub mod ConnectService
pub mod ServiceListener
pub mod Pipeline
pub mod Program
mod Tests
