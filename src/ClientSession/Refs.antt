-- ===== src/ClientSession/Refs.antt =====
-- The reference count of ClientSession.hpp.
use windows_iocp_network.Base.{◌+◌, ◌≡◌, length}
use windows_iocp_network.ClientSession.{ClientSession}

-- Every context has taken a reference, and every `DisconnectCompletion` has dropped one; no other
-- call drops any.
abbrev pub IsCounted : ClientSession → Type 0
IsCounted s = s.ref_count + length s.disconnects ≡ length s.contexts
