-- ===== src/Dns.antt =====
-- src/dns.c, src/edns.c and src/tsig.c: from a line of input to a DNS message.
pub mod Name
pub mod Qtype
pub mod Query
pub mod Update
pub mod Edns
pub mod Tsig
pub mod Request
