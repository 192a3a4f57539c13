-- ===== src/Config/Address.antt =====
-- The addresses that the master formats, against the reader of addresses of the consumer's client.
use cupidmq.Common.{
  if◌then◌else◌, length, u16_mod, ℕ, ◌≤◌, ◌<◌, ◌≡◌, refl, sym, ap, ◌∙◌, Bool, true, false, not,
  ◌&&◌, Option, none, some, [], ◌∷◌, ◌++◌, append_assoc, arith,
}
use cupidmq.Text.{Text, is_empty, trim, contains, starts_with, parse_uint, decimal}
use cupidmq.Text.Cutting.{rsplit_once-append}
use cupidmq.Text.Numbers.{decimal-Digits, contains-Digits, parse_uint-decimal, parse_uint_bound}
use cupidmq.Config.{
  FileConfig, Sizes, CliOverrides, and_then, or_else, unwrap_or, get_str, get_u16,
  format_socket_addr, resolve_bind, resolve,
}
use cupidmq.Consumer.Settings.{accepted, parse_host_port}

-- The host as it stands before the port: an IPv6 address in brackets.
unfoldable pub shown : Text → Text
shown host =
    let host = trim host in
    if not (starts_with b'[' host) && contains b':' host then (b'[' ∷ host) ++ (b']' ∷ []) else host

not_empty : (s t : Text) → 1 ≤ length s → is_empty (s ++ t) ≡ false
not_empty [] t h = absurd (omega arith)
not_empty (c ∷ s) t h = refl

-- Behind the last colon stands the port.
parse_host_port-decimal :
    (host : Text) (port : ℕ)
    → is_empty host ≡ false
    → port < u16_mod
    → parse_host_port (host ++ (b':' ∷ decimal port)) ≡ accepted (host, port)
unfolding parse_host_port
parse_host_port-decimal host port h k =
    rw
      (
        rsplit_once-append b':' host (decimal port)
            (contains-Digits b':' (decimal port) refl (decimal-Digits port)),
        h,
        parse_uint-decimal u16_mod port k (omega arith),
      )
      refl

-- What `format_socket_addr` writes, for a host that is not blank and a `u16` as port, the client of a
-- consumer reads as that port and the host, which is trimmed, and stands in brackets if it has a colon.
pub parse_host_port-format_socket_addr :
    (host : Text) (port : ℕ)
    → is_empty (trim host) ≡ false
    → port < u16_mod
    → parse_host_port (format_socket_addr host port) ≡ accepted (shown host, port)
unfolding format_socket_addr shown
parse_host_port-format_socket_addr host port h k =
    formatted (trim host) (starts_with b'[' (trim host)) (contains b':' (trim host)) h
  where
    formatted :
        (s : Text) (b c : Bool)
        → is_empty s ≡ false
        → parse_host_port (
            if b
            then s ++ (b':' ∷ decimal port)
            else if c
            then (b'[' ∷ s) ++ (b']' ∷ b':' ∷ decimal port)
            else s ++ (b':' ∷ decimal port))
          ≡ accepted (if not b && c then (b'[' ∷ s) ++ (b']' ∷ []) else s, port)
    formatted s true c e = parse_host_port-decimal s port e k
    formatted s false false e = parse_host_port-decimal s port e k
    formatted s false true e =
        ap parse_host_port (sym (append_assoc (b'[' ∷ s) (b']' ∷ []) (b':' ∷ decimal port)))
        ∙ parse_host_port-decimal ((b'[' ∷ s) ++ (b']' ∷ [])) port refl k

-- The ports of a command line are `u16`.
pub record IsCli (cli : CliOverrides) : Type 0 where
  pub control_port : (p : ℕ) → cli.control_port ≡ some p → p < u16_mod
  pub metrics_port : (p : ℕ) → cli.metrics_port ≡ some p → p < u16_mod

picked :
    (cli file : Option ℕ) (default : ℕ)
    → ((p : ℕ) → cli ≡ some p → p < u16_mod)
    → ((p : ℕ) → file ≡ some p → p < u16_mod)
    → default < u16_mod
    → unwrap_or (or_else cli file) default < u16_mod
picked (some p) file default h k l = h p refl
picked none (some p) default h k l = k p refl
picked none none default h k l = l

from_file :
    (key : Text) (file : Option FileConfig) (p : ℕ)
    → and_then file (get_u16 key) ≡ some p
    → p < u16_mod
unfolding get_u16
from_file key none p h = absurd cc
from_file key (some file) p h = from_value (get_str key file) h
  where
    from_value : (o : Option Text) → and_then o (parse_uint u16_mod) ≡ some p → p < u16_mod
    from_value none e = absurd cc
    from_value (some s) e = parse_uint_bound u16_mod s p (omega arith) e

-- Whatever the file says and whatever is missing, if the ports of the command line are `u16` and the
-- host that counts is not blank, the two addresses that the master listens on are such as the consumer
-- client's `parse_host_port` splits into the ports that were resolved, both `u16`, and the host as
-- `shown`: without the white space around it, and in brackets if it has a colon and does not begin
-- with a bracket.
pub parse_host_port-resolve :
    {F : Type 0} (sizes : Sizes F) (file : Option FileConfig) (path : Option Text)
    (cli : CliOverrides)
    → IsCli cli
    → is_empty (trim (resolve sizes file path cli).host) ≡ false
    → let c = resolve sizes file path cli in
      (parse_host_port c.control ≡ accepted (shown c.host, c.control_port))
      × (parse_host_port c.metrics ≡ accepted (shown c.host, c.metrics_port))
      × (c.control_port < u16_mod)
      × (c.metrics_port < u16_mod)
unfolding resolve resolve_bind
parse_host_port-resolve sizes file path cli v h =
    let control : (resolve sizes file path cli).control_port < u16_mod =
      picked cli.control_port _ 9750 v.control_port (from_file _ file) (omega arith) in
    let metrics : (resolve sizes file path cli).metrics_port < u16_mod =
      picked cli.metrics_port _ 9752 v.metrics_port (from_file _ file) (omega arith) in
    (
      parse_host_port-format_socket_addr _ _ h control,
      parse_host_port-format_socket_addr _ _ h metrics,
      control,
      metrics,
    )
