-- ===== src/Host/Environment.antt =====
-- src/Blun.Mq.Host/src/main.rs: what a node reads from its environment. The argument `env` is
-- `std::env::var`, with none for a variable that is not there or is no Unicode; std's socket addresses
-- are parameters.
pub mod Defaults
use blun_mq.Base.{ℕ, ◌++◌, Option, get_or, Text, text, Outcome, ok, ◌>>=◌, map_err}
use blun_mq.Base.BTreeMap.{BTreeMap}
use blun_mq.Host.Decimal.{decimal}
use blun_mq.Host.Peers.{ParseIntError, parse_u64, parse_peers}

pub record SocketAddrs : Type 1 where
  pub SocketAddr : Type 0
  pub AddrParseError : Type 0
  pub parse : Text → Outcome AddrParseError SocketAddr
  pub port : SocketAddr → ℕ
  pub display : SocketAddr → Text

pub data SettingsError (A : Type 0) : Type 0 where
  number : ParseIntError → SettingsError A
  address : A → SettingsError A

module _ (n : SocketAddrs) where
  pub record Settings : Type 0 where
    pub node_id : Text
    pub node_num : ℕ
    pub grpc_addr : n.SocketAddr
    pub http_addr : n.SocketAddr
    pub peers : BTreeMap Text
    pub data_dir : Text

  -- A malformed MQ_PEERS panics; the other variables' errors are returned.
  unfoldable pub settings : (Text → Option Text) → Outcome (SettingsError n.AddrParseError) Settings
  settings env = do
    let node_id = get_or (env (text "MQ_NODE_ID")) (text "node-1")
    node_num ← map_err number (parse_u64 (get_or (env (text "MQ_NODE_NUM")) (text "1")))
    grpc_addr ← map_err address (n.parse (get_or (env (text "MQ_GRPC_ADDR")) (text "0.0.0.0:5001")))
    http_addr ← map_err address (n.parse (get_or (env (text "MQ_HTTP_ADDR")) (text "0.0.0.0:5080")))
    peers ← map_err number (
        parse_peers (
          get_or (env (text "MQ_PEERS"))
            (text "1=http://localhost:" ++ decimal (n.port grpc_addr))))
    let data_dir = get_or (env (text "MQ_DATA_DIR")) (text "./data/" ++ node_id)
    ok (record {
      node_id = node_id;
      node_num = node_num;
      grpc_addr = grpc_addr;
      http_addr = http_addr;
      peers = peers;
      data_dir = data_dir;
    })
