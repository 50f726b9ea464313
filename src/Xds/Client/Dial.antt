-- ===== src/Xds/Client/Dial.antt =====
-- internal/pkg/legacy/xds/adsc/adsc.go: `New` and `dial`. gRPC's client is a parameter, as are its
-- default backoff and what it returns for an address and options. Times are in nanoseconds.
use federation.Common.{
  ℕ, ◌*◌, ◌^◌, ◌-◌, ◌≡◌, refl, Option, none, some, Text, codes, Result, err, failure, with_context,
}

-- ADSCConfig, as far as `dial` reads it.
pub record DialConfig : Type 0 where
  pub discovery_addr : Text
  pub authority : Text
  pub reconnect_delay : ℕ

-- backoff.Config, in its units.
pub record Backoff : Type 0 where
  pub base_delay : ℕ
  pub multiplier : ℕ
  pub jitter : ℕ
  pub max_delay : ℕ

-- The options of the call, in order, but for the credentials, which are insecure.
pub record DialOptions : Type 0 where
  pub authority : Text
  pub initial_window_size : ℕ
  pub initial_conn_window_size : ℕ
  pub max_call_recv_msg_size : ℕ
  pub backoff : Backoff
  pub min_connect_timeout : ℕ

abbrev pub default_client_max_receive_message_size : ℕ
default_client_max_receive_message_size = 2 ^ 31 - 1

abbrev pub default_initial_window_size : ℕ
default_initial_window_size = 1024 * 1024

abbrev pub default_initial_conn_window_size : ℕ
default_initial_conn_window_size = 1024 * 1024

-- `backoffConfig`, with its maximal delay set: nothing reads it.
abbrev pub backoff_config : Backoff → DialConfig → Backoff
backoff_config default_config cfg = record default_config { max_delay = cfg.reconnect_delay }

unfoldable pub dial_options : Backoff → DialConfig → DialOptions
dial_options default_config cfg =
    let unused = backoff_config default_config cfg in
    record {
      authority = cfg.authority;
      initial_window_size = default_initial_window_size;
      initial_conn_window_size = default_initial_conn_window_size;
      max_call_recv_msg_size = default_client_max_receive_message_size;
      backoff = default_config;
      min_connect_timeout = cfg.reconnect_delay;
    }

-- gRPC's `NewClient`, with its connections.
abbrev pub NewClient : Type 0 → Type 0
NewClient Conn = Text → DialOptions → Result Conn

unfoldable pub dial : {Conn : Type 0} → Backoff → NewClient Conn → DialConfig → Result Conn
dial default_config new_client cfg =
    with_context (codes "failed to establish connection to the ADS server")
      (new_client cfg.discovery_addr (dial_options default_config cfg))

-- `New`: nil options are an error.
unfoldable pub new : {Conn : Type 0} → Backoff → NewClient Conn → Option DialConfig → Result Conn
new default_config new_client none = err (failure (codes "adsc: opts is nil"))
new default_config new_client (some cfg) = dial default_config new_client cfg

-- gRPC, whose connections are not looked at.
pub record Grpc : Type 0 where
  pub default_config : Backoff
  pub new_client : NewClient (Unit {0})

-- How long the connection waits at most between attempts does not depend on the reconnect delay.
pub max_delay-dial_options :
    (default_config : Backoff) (cfg : DialConfig)
    → (dial_options default_config cfg).backoff.max_delay ≡ default_config.max_delay
unfolding dial_options
max_delay-dial_options default_config cfg = refl
