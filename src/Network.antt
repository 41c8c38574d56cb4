-- ===== src/Network.antt =====
-- The network device, code/machine/network.cc, and the post office, code/network/post.cc.
pub mod Bytes
pub mod Device
pub mod Post
