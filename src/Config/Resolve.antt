-- ===== src/Config/Resolve.antt =====
-- A configuration that is written to a file and resolved again.
use cupidmq.Common.{
  ◌==◌, length, All, u16_mod, u64_mod, ℕ, ◌≤◌, ◌<◌, ◌≡◌, refl, false, Option, none, some, List, [],
  ◌∷◌, arith,
}
use cupidmq.Text.{
  Text, codes, is_whitespace, trim_start_matches, trim_end_matches, contains, to_ascii_lowercase,
  decimal,
}
use cupidmq.Text.Numbers.{
  decimal-Digits, decimal-some, contains-Digits, Digits-IsTrimmed, parse_uint-decimal,
}
use cupidmq.Config.{
  Values, get, FileConfig, Sizes, CliOverrides, or_else, unwrap_or, get_str, get_u16, get_u64,
  get_usize, format_socket_addr, parse_conf_text, resolve_bind, resolve,
}
use cupidmq.Config.File.{IsValue, IsEntry, conf_text, insert_all, parse_conf_text-conf_text}
use cupidmq.Config.Numbers.{parse_size-decimal}

-- What a configuration file can set.
pub record Stored : Type 0 where
  pub host : Text
  pub control_port : ℕ
  pub metrics_port : ℕ
  pub history_interval_ms : ℕ
  pub history_cap : ℕ
  pub dashboard_dir : Text

pub record IsStored (c : Stored) : Type 0 where
  pub host : IsValue c.host
  pub control_port : c.control_port < u16_mod
  pub metrics_port : c.metrics_port < u16_mod
  pub history_interval_ms : c.history_interval_ms < u64_mod
  pub history_cap : c.history_cap < u64_mod
  pub dashboard_dir : IsValue c.dashboard_dir

abbrev pub entries_of : Stored → List (Text × Text)
entries_of c =
    (codes "host", c.host)
    ∷ (codes "control_port", decimal c.control_port)
    ∷ (codes "metrics_port", decimal c.metrics_port)
    ∷ (codes "history_interval_ms", decimal c.history_interval_ms)
    ∷ (codes "history_cap", decimal c.history_cap)
    ∷ (codes "dashboard_dir", c.dashboard_dir)
    ∷ []

abbrev pub file_of : Text → FileConfig
file_of raw = record { values = parse_conf_text raw }

decimal-IsValue : (n : ℕ) → IsValue (decimal n)
decimal-IsValue n = record {
  some = decimal-some n;
  trimmed = Digits-IsTrimmed is_whitespace (decimal n) (λ c d. ground arith) (decimal-Digits n);
  double_quotes =
      Digits-IsTrimmed (λ c. c == b'"') (decimal n) (λ c d. ground arith) (decimal-Digits n);
  single_quotes =
      Digits-IsTrimmed (λ c. c == b'\'') (decimal n) (λ c d. ground arith) (decimal-Digits n);
  one_line = contains-Digits b'\n' (decimal n) refl (decimal-Digits n);
  no_comment = contains-Digits b'#' (decimal n) refl (decimal-Digits n);
}

literal-IsEntry :
    (k v : Text)
    → 1 ≤ length k
    → trim_start_matches is_whitespace k ≡ k
    → trim_end_matches is_whitespace k ≡ k
    → to_ascii_lowercase k ≡ k
    → contains b'\n' k ≡ false
    → contains b'#' k ≡ false
    → contains b'=' k ≡ false
    → IsValue v
    → IsEntry (k, v)
literal-IsEntry k v h front back l m n o value = record {
  key = record {
    some = h;
    trimmed = record { front = front; back = back };
    lower = l;
    one_line = m;
    no_comment = n;
    no_equals = o;
  };
  value = value;
}

entries_of-IsEntry : (c : Stored) → IsStored c → All IsEntry (entries_of c)
unfolding trim_start_matches trim_end_matches to_ascii_lowercase contains
entries_of-IsEntry c v = (
  literal-IsEntry (codes "host") _ (omega arith) refl refl refl refl refl refl v.host,
  (
    literal-IsEntry (codes "control_port") _ (omega arith) refl refl refl refl refl refl
        (decimal-IsValue c.control_port),
    (
      literal-IsEntry (codes "metrics_port") _ (omega arith) refl refl refl refl refl refl
          (decimal-IsValue c.metrics_port),
      (
        literal-IsEntry (codes "history_interval_ms") _ (omega arith) refl refl refl refl refl refl
            (decimal-IsValue c.history_interval_ms),
        (
          literal-IsEntry (codes "history_cap") _ (omega arith) refl refl refl refl refl refl
              (decimal-IsValue c.history_cap),
          (
            literal-IsEntry (codes "dashboard_dir") _ (omega arith) refl refl refl refl refl refl
                v.dashboard_dir,
            tt,
          ),
        ),
      ),
    ),
  ),
)

-- The values of the file.
abbrev values_of : Stored → Values
values_of c = insert_all (entries_of c) []

looked_up :
    (c : Stored)
    → (get (codes "host") (values_of c) ≡ some c.host)
      × (get (codes "control_port") (values_of c) ≡ some (decimal c.control_port))
      × (get (codes "metrics_port") (values_of c) ≡ some (decimal c.metrics_port))
      × (get (codes "history_interval_ms") (values_of c) ≡ some (decimal c.history_interval_ms))
      × (get (codes "history_cap") (values_of c) ≡ some (decimal c.history_cap))
      × (get (codes "dashboard_dir") (values_of c) ≡ some c.dashboard_dir)
unfolding insert_all
looked_up c = (refl, refl, refl, refl, refl, refl)

overrides {ℓ} :
    {A : Type ℓ} (o : Option A) (a d : A) → unwrap_or (or_else o (some a)) d ≡ unwrap_or o a
overrides none a d = refl
overrides (some b) a d = refl

or_some {ℓ} : {A : Type ℓ} (o : Option A) (a : A) → or_else o (some a) ≡ some (unwrap_or o a)
or_some none a = refl
or_some (some b) a = refl

-- A file that sets everything is resolved to what it sets, and what the command line says overrides
-- it, each on its own, if the two ports are `u16`, the other two numbers `u64`, and the host and the
-- directory have no `#`, line feed, or white space or quotes at an end.
pub resolve-conf_text :
    {F : Type 0} (sizes : Sizes F) (c : Stored) (path : Option Text) (cli : CliOverrides)
    → IsStored c
    → resolve sizes (some (file_of (conf_text (entries_of c)))) path cli ≡ record {
      config_path = path;
      host = unwrap_or cli.host c.host;
      control_port = unwrap_or cli.control_port c.control_port;
      metrics_port = unwrap_or cli.metrics_port c.metrics_port;
      control =
          format_socket_addr
            (unwrap_or cli.host c.host)
            (unwrap_or cli.control_port c.control_port);
      metrics =
          format_socket_addr
            (unwrap_or cli.host c.host)
            (unwrap_or cli.metrics_port c.metrics_port);
      history_interval_ms = unwrap_or cli.history_interval_ms c.history_interval_ms;
      history_cap = unwrap_or cli.history_cap c.history_cap;
      dashboard_dir = some (unwrap_or cli.dashboard_dir c.dashboard_dir);
    }
unfolding resolve resolve_bind get_str get_u16 get_u64 get_usize
resolve-conf_text sizes c path cli v =
    let (host, control_port, metrics_port, interval, cap_value, dir) = looked_up c in
    rw
      (
        parse_conf_text-conf_text (entries_of c) (entries_of-IsEntry c v),
        host,
        control_port,
        metrics_port,
        interval,
        cap_value,
        dir,
        parse_uint-decimal u16_mod c.control_port v.control_port (omega arith),
        parse_uint-decimal u16_mod c.metrics_port v.metrics_port (omega arith),
        parse_uint-decimal u64_mod c.history_cap v.history_cap (omega arith),
        parse_size-decimal sizes c.history_interval_ms v.history_interval_ms,
        overrides cli.host c.host (codes "0.0.0.0"),
        overrides cli.control_port c.control_port 9750,
        overrides cli.metrics_port c.metrics_port 9752,
        overrides cli.history_interval_ms c.history_interval_ms 2000,
        overrides cli.history_cap c.history_cap 1800,
        or_some cli.dashboard_dir c.dashboard_dir,
      )
      refl
