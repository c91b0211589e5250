-- ===== src/Node.antt =====
-- cmd/ucl-node/ucl_node.go: what a node does with the commands that it gets.
pub mod Env
pub mod Command
pub mod Argv
pub mod Process
pub mod SenderProcess
pub mod Plans
pub mod Apps
pub mod Accepted
pub mod Serve
pub mod Decode
mod Tests
