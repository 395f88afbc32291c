-- ===== src/Transfer/FtpSession.antt =====
-- internal/transfer/ftpsession.go: the deadlines of an FTP session and its data connections. A network
-- connection is a number with the deadline that it was told last, 0 for none.
use sfync.Base.{
  ℕ, ◌+◌, Option, none, some, List, [], ◌∷◌, ◌++◌, Bool, true, false, nat_eq, if◌then◌else◌,
}

pub record NetConn : Type 0 where
  pub id : ℕ
  pub limit : ℕ
  pub closed : Bool
  pub over_tls : Bool

-- `ftpSession`. `uses_tls` says that tlsConfig is not nil, `connected` that there is a ServerConn.
pub record FtpSession : Type 0 where
  pub uses_tls : Bool
  pub connected : Bool
  pub control : Option NetConn
  pub data_conns : List NetConn
  pub deadline : ℕ

abbrev pub limited : ℕ → NetConn → NetConn
limited t conn = record conn { limit = t }

abbrev pub limited_all : ℕ → List NetConn → List NetConn
limited_all t [] = []
limited_all t (conn ∷ conns) = limited t conn ∷ limited_all t conns

abbrev pub limited_control : ℕ → Option NetConn → Option NetConn
limited_control t none = none
limited_control t (some conn) = some (limited t conn)

-- `begin` at the time `now`.
unfoldable pub begin : ℕ → ℕ → FtpSession → FtpSession
begin now d s = record s {
  deadline = now + d;
  control = limited_control (now + d) s.control;
  data_conns = limited_all (now + d) s.data_conns;
}

-- `end`
unfoldable pub finish : FtpSession → FtpSession
finish s = record s { deadline = 0; control = limited_control 0 s.control; data_conns = [] }

-- `dial` once the connection is made: the first is the control connection, which the library
-- upgrades itself; the others are data connections, over TLS if the session uses it.
abbrev pub keep : NetConn → Option NetConn → FtpSession → FtpSession
keep raw none s = record s { control = some raw }
keep raw (some _) s = record s {
  data_conns = s.data_conns ++ (record raw { over_tls = s.uses_tls } ∷ []);
}

unfoldable pub dial : ℕ → FtpSession → FtpSession
unfolding nat_eq
dial id s =
    let raw : NetConn = record { id = id; limit = s.deadline; closed = false; over_tls = false } in
    keep raw s.control s

abbrev pub closed_all : List NetConn → List NetConn
closed_all [] = []
closed_all (conn ∷ conns) = record conn { closed = true } ∷ closed_all conns

abbrev pub closed_control : Option NetConn → Option NetConn
closed_control none = none
closed_control (some conn) = some (record conn { closed = true })

-- `closeRaw`
unfoldable pub close_raw : FtpSession → FtpSession
close_raw s = record s { control = closed_control s.control; data_conns = closed_all s.data_conns }

-- `close`, with what QUIT takes the time of; `alive_timeout` is five seconds.
abbrev pub alive_timeout : ℕ
alive_timeout = 5_000_000_000

unfoldable pub close : ℕ → FtpSession → FtpSession
unfolding begin close_raw
close now s = if s.connected then close_raw (begin now alive_timeout s) else close_raw s
