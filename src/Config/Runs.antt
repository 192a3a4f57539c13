-- ===== src/Config/Runs.antt =====
-- Concrete runs of the configuration, the tests of config.rs among them, and its theorems at concrete
-- inputs.
use cupidmq.Common.{
  ◌==◌, length, u16_mod, u64_mod, ℕ, ◌*◌, ◌≤◌, ◌<◌, ◌≡◌, refl, false, none, some, List, [], ◌∷◌,
  arith,
}
use cupidmq.Text.{
  Text, codes, trim_start_matches, trim_end_matches, trim_matches, trim, to_ascii_lowercase,
  contains, starts_with, before, split_once, strip_suffix, without_char, pieces, lines,
  parse_digits, parse_uint, digits_of, decimal, is_whitespace,
}
use cupidmq.Text.Numbers.{parse_uint-decimal}
use cupidmq.Config.{
  Sizes, parse_suffixes, parse_size, parse_line, parse_lines, parse_conf_text, format_socket_addr,
  CliOverrides, resolve_bind, resolve, resolve_config_path,
}
use cupidmq.Config.File.{IsValue, IsEntry, conf_text, insert_all, parse_conf_text-conf_text}
use cupidmq.Config.Spelling.{over, as_is, capital, underscore}
use cupidmq.Config.Numbers.{megabytes, IsExact, parse_size-suffix}
use cupidmq.Config.Address.{shown, IsCli, parse_host_port-resolve}
use cupidmq.Config.Resolve.{Stored, IsStored, entries_of, file_of, resolve-conf_text}
use cupidmq.Consumer.Settings.{accepted, parse_host_port}

abbrev commented : Text
commented = codes "# comment\nhost=0.0.0.0\ncontrol_port=9750\n\nhistory_cap=1800"

-- `parse_conf_ignores_comments`
parse_conf_ignores_comments :
    parse_conf_text commented
    ≡ (codes "host", codes "0.0.0.0")
      ∷ (codes "control_port", codes "9750")
      ∷ (codes "history_cap", codes "1800")
      ∷ []
unfolding parse_conf_text parse_lines parse_line lines pieces strip_suffix trim trim_matches
    trim_start_matches trim_end_matches before split_once to_ascii_lowercase
parse_conf_ignores_comments = refl

-- A key is put in lower case, a value loses its quotes, and the rest of a line is a comment.
quoted_value :
    parse_conf_text (codes "  Host = \"::1\" # loopback\r\n=x\nhost")
    ≡ (codes "host", codes "::1") ∷ []
unfolding parse_conf_text parse_lines parse_line lines pieces strip_suffix trim trim_matches
    trim_start_matches trim_end_matches before split_once to_ascii_lowercase
quoted_value = refl

-- `format_ipv6_socket_addr`
format_ipv6_socket_addr :
    (format_socket_addr (codes "::1") 9750 ≡ codes "[::1]:9750")
    × (format_socket_addr (codes "[::1]") 9750 ≡ codes "[::1]:9750")
unfolding format_socket_addr trim trim_matches trim_start_matches trim_end_matches starts_with
    contains decimal digits_of
format_ipv6_socket_addr = (refl, refl)

-- Natural numbers with a table of readings, for the runs.
abbrev naturals : Sizes ℕ
naturals = record {
  parse_f64 = parse_uint u64_mod;
  as_f64 = λ n. n;
  times = λ a b. a * b;
  as_u64 = λ n. n;
}

-- `parse_size_units`
parse_size_units :
    (parse_size naturals (codes "1024mb") ≡ some (1024 * 1024 * 1024))
    × (parse_size naturals (codes "512m") ≡ some (512 * 1024 * 1024))
    × (parse_size naturals (codes "1073741824") ≡ some 1073741824)
    × (parse_size naturals (codes " 1_024 KB ") ≡ some (1024 * 1024))
    × (parse_size naturals (codes "x") ≡ none)
unfolding parse_size trim trim_matches trim_start_matches trim_end_matches to_ascii_lowercase
    without_char strip_suffix parse_suffixes parse_uint parse_digits
parse_size_units = (refl, refl, refl, refl, refl)

no_explicit_path :
    (resolve_config_path none none (codes "/etc") ≡ codes "/etc/cupidmq.conf")
    × (resolve_config_path none (some (codes "a.conf")) (codes "/etc") ≡ codes "a.conf")
unfolding resolve_config_path
no_explicit_path = (refl, refl)

abbrev no_overrides : CliOverrides
no_overrides = record {
  host = none;
  control_port = none;
  metrics_port = none;
  history_interval_ms = none;
  history_cap = none;
  dashboard_dir = none;
}

-- An IPv6 address and two ports.
abbrev loopback : Stored
loopback = record {
  host = codes "::1";
  control_port = 19750;
  metrics_port = 9752;
  history_interval_ms = 500;
  history_cap = 10;
  dashboard_dir = codes "/srv/a=b";
}

literal-IsValue :
    (v : Text)
    → 1 ≤ length v
    → trim_start_matches is_whitespace v ≡ v
    → trim_end_matches is_whitespace v ≡ v
    → trim_start_matches (λ c. c == b'"') v ≡ v
    → trim_end_matches (λ c. c == b'"') v ≡ v
    → trim_start_matches (λ c. c == b'\'') v ≡ v
    → trim_end_matches (λ c. c == b'\'') v ≡ v
    → contains b'\n' v ≡ false
    → contains b'#' v ≡ false
    → IsValue v
literal-IsValue v h a b c d e f k l = record {
  some = h;
  trimmed = record { front = a; back = b };
  double_quotes = record { front = c; back = d };
  single_quotes = record { front = e; back = f };
  one_line = k;
  no_comment = l;
}

loopback-IsStored : IsStored loopback
unfolding trim_start_matches trim_end_matches contains
loopback-IsStored = record {
  host = literal-IsValue (codes "::1") (omega arith) refl refl refl refl refl refl refl refl;
  control_port = omega arith;
  metrics_port = omega arith;
  history_interval_ms = omega arith;
  history_cap = omega arith;
  dashboard_dir =
      literal-IsValue (codes "/srv/a=b") (omega arith) refl refl refl refl refl refl refl refl;
}

resolve-conf_text_example :
    resolve naturals
      (some (file_of (conf_text (entries_of loopback))))
      none
      (record no_overrides { metrics_port = some 80 })
    ≡ record {
      config_path = none;
      host = codes "::1";
      control_port = 19750;
      metrics_port = 80;
      control = format_socket_addr (codes "::1") 19750;
      metrics = format_socket_addr (codes "::1") 80;
      history_interval_ms = 500;
      history_cap = 10;
      dashboard_dir = some (codes "/srv/a=b");
    }
resolve-conf_text_example =
    resolve-conf_text naturals loopback none (record no_overrides { metrics_port = some 80 })
      loopback-IsStored

abbrev two_hosts : List (Text × Text)
two_hosts = (codes "host", codes "a") ∷ (codes "host", codes "b=c") ∷ []

parse_conf_text-conf_text_example :
    parse_conf_text (codes "host=a\nhost=b=c\n") ≡ (codes "host", codes "b=c") ∷ []
unfolding trim_start_matches trim_end_matches contains to_ascii_lowercase conf_text insert_all
parse_conf_text-conf_text_example = parse_conf_text-conf_text two_hosts (
  one_entry (codes "a") (omega arith) refl refl refl refl refl refl refl refl,
  (one_entry (codes "b=c") (omega arith) refl refl refl refl refl refl refl refl, tt),
)
  where
    one_entry :
        (v : Text)
        → 1 ≤ length v
        → trim_start_matches is_whitespace v ≡ v
        → trim_end_matches is_whitespace v ≡ v
        → trim_start_matches (λ c. c == b'"') v ≡ v
        → trim_end_matches (λ c. c == b'"') v ≡ v
        → trim_start_matches (λ c. c == b'\'') v ≡ v
        → trim_end_matches (λ c. c == b'\'') v ≡ v
        → contains b'\n' v ≡ false
        → contains b'#' v ≡ false
        → IsEntry (codes "host", v)
    one_entry v h a b c d e f k l = record {
      key = record {
        some = omega arith;
        trimmed = record { front = refl; back = refl };
        lower = refl;
        one_line = refl;
        no_comment = refl;
        no_equals = refl;
      };
      value = literal-IsValue v h a b c d e f k l;
    }

naturals-IsExact : IsExact naturals
naturals-IsExact = record {
  reads = λ n h. parse_uint-decimal u64_mod n (omega arith) (omega arith);
  multiplies = λ a b h. refl;
}

parse_size-suffix_example : parse_size naturals (codes " 1_0Mb ") ≡ some 10485760
unfolding decimal digits_of
parse_size-suffix_example =
    parse_size-suffix naturals (codes " ") (codes "1_0Mb") (codes " ") (codes "mb") (1024 * 1024) 10
      naturals-IsExact megabytes (omega arith) (omega arith) (refl, tt)
      (as_is b'1' refl (underscore (as_is b'0' refl (capital b'M' refl (as_is b'b' refl over)))))
      (refl, tt)

no_overrides-IsCli : IsCli no_overrides
no_overrides-IsCli = record {
  control_port = λ p h. absurd (none_some h);
  metrics_port = λ p h. absurd (none_some h);
}
  where
    none_some : {p : ℕ} → ¬ (none ≡ some p)
    none_some h = cc

parse_host_port-resolve_example :
    let c = resolve naturals none none no_overrides in
    (parse_host_port c.control ≡ accepted (shown c.host, c.control_port))
    × (parse_host_port c.metrics ≡ accepted (shown c.host, c.metrics_port))
    × (c.control_port < u16_mod)
    × (c.metrics_port < u16_mod)
unfolding resolve resolve_bind trim trim_matches trim_start_matches trim_end_matches
parse_host_port-resolve_example =
    parse_host_port-resolve naturals none none no_overrides no_overrides-IsCli refl
