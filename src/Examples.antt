-- ===== src/Examples.antt =====
-- Tests on the topology of simple-router-project/IP_CONFIG and simple-router-project/router/rtable,
-- and the theorems of the other files at concrete inputs.
mod Topology
mod Checks
mod Runs
mod Threads
mod Parts
mod Server
mod Replies
mod Deliveries
mod Table
mod Sessions
mod Files
mod Pings
mod Errors
mod Whole
mod Template
