-- ===== src/Kontrol.antt =====
-- Package kontrol: the name service that kites register with and that hands out tokens.
pub mod QueryKey
pub mod Node
pub mod KeyPair
pub mod Keys
pub mod Token
pub mod Register
pub mod Serve
pub mod Updater
pub mod Kites
pub mod Etcd
pub mod Postgres
