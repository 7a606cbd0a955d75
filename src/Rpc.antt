-- ===== src/Rpc.antt =====
-- l1-rpc.cpp: the server that answers remote calls about the chunks of a stream, and writes chunks to
-- disk. Locks are left out where a method holds its lock to the end: it is one step of the model.
pub mod Method
pub mod Object
pub mod Data
pub mod Backend
pub mod Server
pub mod Queries
pub mod Requests
pub mod Replace
pub mod Handler
pub mod Run
