-- ===== src/Proxy/Server/Conn/Laws.antt =====
-- A login from the first byte of the connection on.
use ciallo.Common.{ℕ, ◌≡◌, Bytes, true, some, nat_eq}
use ciallo.Go.Json.{Json}
use ciallo.Go.Reader.{Reader}
use ciallo.Go.Writer.{open_writer}
use ciallo.Mcproto.Host.{normalize_host}
use ciallo.Mcproto.Packet.{Packet}
use ciallo.Mcproto.Handshake.{Handshake}
use ciallo.Proxy.Types.{Backend}
use ciallo.Proxy.Server.{Server}
use ciallo.Proxy.Server.Login.{LoginCall}
use ciallo.Proxy.Server.Conn.{ConnCall, ConnRun, login_call}

module _ (json : Json) (lower : ℕ → ℕ) where
  -- The login that `handleConn` hands on.
  abbrev pub login_of : ConnCall → Handshake → Packet → Reader → Backend → LoginCall
  login_of c h p client backend =
      login_call c backend (normalize_host lower h.server_address) h p client

  -- The bytes that the backend and the client have received.
  abbrev pub Received : Bytes → Bytes → ConnRun → Type 0
  Received to_backend to_client run =
      (run.backend_end ≡ some (record { out = open_writer to_backend; closed = true }))
      × (run.client_out ≡ open_writer to_client)
