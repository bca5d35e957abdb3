-- ===== src/Apps.antt =====
-- The sample applications under images/: their HTTP and Redis handlers, over Spin's SDK.
pub mod Sdk
pub mod Logic
pub mod OutboundRedis
pub mod Dapr
pub mod KeyValue
pub mod MultiTrigger
pub mod MqttLogger
use containerd_shim_spin.Prelude.{String}

-- images/spin/src/lib.rs: `hello_world`
abbrev pub hello_world : String
hello_world = "Hello world from Spin!"
