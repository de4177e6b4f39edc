-- ===== src/ServiceBench.antt =====
-- psrv/src/srv.cpp, the benchmark over ROS 2 services, with the request of pnodeif/srv/Bench.srv.
-- The services are rclcpp's, a parameter: requests wait under the service's name until the service
-- is handed them, and have the interface and the laws of the topics.
pub mod Nodes
pub mod Steps
pub mod Labelled
pub mod Invariant
pub mod Endings
pub mod Queued
pub mod Setup
