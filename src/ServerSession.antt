-- ===== src/ServerSession.antt =====
-- win-iocp/win-iocp-mssql-usage/ServerSession.hpp: the session that connects to a server.
use windows_iocp_network.Base.{
  Bool, false, Option, none, some, if◌then◌else◌, Outcome, done, crash, assertion,
}
use windows_iocp_network.Session.{Session}

-- `binds`: whether `bind` succeeds. `none`: the end of the function is met without a `return`,
-- where C++ defines no value. The comparison of the port's handle there guards an empty block.
unfoldable pub connect_request : Bool → Session → Outcome (Option Bool)
connect_request binds s =
    if s.connected then crash assertion else (if binds then done none else done (some false))

-- `ConnectCompletion()` is empty.
unfoldable pub connect_completion : Session → Session
connect_completion s = s
