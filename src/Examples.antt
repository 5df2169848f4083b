-- ===== src/Examples.antt =====
-- The theorems at concrete inputs, in a world in which every assumption on the code outside the
-- repository holds.
mod World
mod Frames
mod Wires
mod Keys
mod Requests
mod Channels
mod Task
mod Streams
mod Subscribing
mod Decoder
mod Spec
mod Subscriber
mod Server
mod Cli
mod Demo
mod Exchange
mod Messages
