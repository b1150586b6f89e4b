-- ===== src/Firewall.antt =====
-- src/analyzers/iptables_forward_analyzer.py: whether the firewall of a router forwards a packet.
pub mod Words
pub mod Sets
pub mod Rules
pub mod Lookup
pub mod Matching
pub mod Chains
pub mod Routes
pub mod MatchSets
mod Tests
