-- ===== src/RestFramework.antt =====
-- src/framework/RESTAPI_Handler.h: what every handler of the REST API does with a request before and
-- around its own methods.
pub mod Bindings
pub mod Parameters
pub mod Dispatch
