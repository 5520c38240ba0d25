-- ===== src/Contract.antt =====
-- openapi.yaml, the contract of the service: the bodies and the statuses of its responses. Of the
-- schemas the types, the required properties and the error codes stand here. The formats of texts,
-- the bounds of numbers and the events of a record do not: they rest on what GitHub and the store
-- hold.
pub mod Shapes
pub mod Schemas
pub mod Responses
pub mod Fits
pub mod Fields
pub mod Accepted
pub mod Patched
