-- ===== src/Output.antt =====
-- output/: the outputs. Files has the files that requests and responses are written to, Names the
-- names of these files, Tcp the output over the network, Kafka the one to Kafka.
pub mod Names
pub mod Files
pub mod Tcp
pub mod Kafka
