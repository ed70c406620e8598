-- ===== src/Types.antt =====
-- include/cppmcp/types.hpp and src/types.cpp: the protocol's types and their JSON forms.
pub mod Initialize
pub mod Roundtrip
pub mod Tests
