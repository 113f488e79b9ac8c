-- ===== src/NetUtil.antt =====
-- internal/netutil: the address rules that the other packages share. Texts are read as ASCII.
pub mod Strings
pub mod Rules
pub mod Addr
pub mod Lan
pub mod Cidr
