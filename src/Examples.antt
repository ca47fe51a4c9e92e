-- ===== src/Examples.antt =====
-- The properties applied at concrete inputs, with tests of the definitions. They stand in the
-- modules below.
mod Identity
mod KeyPairs
mod Callbacks
mod Registration
mod Verification
mod Serving
mod Calls
mod Tokens
mod Chain
mod Sessions
mod Renewals
mod Clients
mod Waits
mod Storages
mod Trees
