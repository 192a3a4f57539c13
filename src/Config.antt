-- ===== src/Config.antt =====
-- master/src/config.rs: the configuration of the master, from its file, its command line and its
-- defaults. The reading of a file and the environment of the process are arguments; the
-- floating-point numbers of a size are a type `F` with the operations of `Sizes`.
pub mod File
pub mod Spelling
pub mod Numbers
pub mod Address
pub mod Resolve
mod Runs
use cupidmq.Common.{
  ltb, leb, ◌==◌, if◌then◌else◌, ltb→lt, ltb→le, lt→ltb, le→ltb, le→leb, lt→leb, ==_iff, Bool-cases,
  Option-cases, length, take, drop, get_elem?, All, length-append, take-append-drop, length-take,
  length-drop, take_all, take-append_length, drop-append_length, length-reverse, length-map,
  All-append, All-map, take-min-length, drop-min-length, take-append_le, take-take,
  drop-take-append, take-map, drop-map, u16_mod, u32_mod, u64_mod, usize_max, saturating_add,
  as_u16, as_u32, add_u32, add_u64, sub_u64, Bytes, ℕ, zero, suc, ◌+◌, ◌-◌, ◌*◌, ◌/◌, ◌%◌, ◌^◌, ◌≤◌,
  ◌<◌, min, max, ◌≡◌, refl, sym, ap, ap₂, subst, ◌∙◌, ◌≢◌, ◌↔◌, ◌⊎◌, inl, inr, Bool, true, false,
  not, ◌&&◌, ◌||◌, Option, none, some, List, [], ◌∷◌, ◌++◌, map, reverse, flatten, append-nil,
  append_assoc, map-append, reverse-append, reverse-reverse, reverse-cons, arith,
}
use cupidmq.Text.{
  Text, codes, same, is_empty, trim_matches, trim, to_ascii_lowercase, contains, starts_with,
  before, split_once, strip_suffix, without_char, lines, parse_uint, decimal,
}

abbrev pub default_host : Text
default_host = codes "0.0.0.0"

abbrev pub default_control_port : ℕ
default_control_port = 9750

abbrev pub default_metrics_port : ℕ
default_metrics_port = 9752

-- `HashMap<String, String>`, of which the source asks what stands at a key.
abbrev pub Values : Type 0
Values = List (Text × Text)

abbrev pub get : Text → Values → Option Text
get key [] = none
get key ((k, v) ∷ values) = if same key k then some v else get key values

abbrev pub insert : Text → Text → Values → Values
insert key value [] = (key, value) ∷ []
insert key value ((k, v) ∷ values) =
    if same key k then (key, value) ∷ values else (k, v) ∷ insert key value values

pub record FileConfig : Type 0 where
  pub values : Values

-- `f64`: what `parse` reads, `x as f64`, the product, and `x as u64`.
pub record Sizes (F : Type 0) : Type 0 where
  pub parse_f64 : Text → Option F
  pub as_f64 : ℕ → F
  pub times : F → F → F
  pub as_u64 : F → ℕ

abbrev pub strip_comment : Text → Text
strip_comment line = trim (before b'#' line)

abbrev pub strip_quotes : Text → Text
strip_quotes v = trim_matches (λ c. c == b'\'') (trim_matches (λ c. c == b'"') (trim v))

abbrev pub insert_entry : Option (Text × Text) → Values → Values
insert_entry none out = out
insert_entry (some (k, v)) out =
    let key = to_ascii_lowercase (trim k) in
    let val = strip_quotes v in
    if not (is_empty key) && not (is_empty val) then insert key val out else out

-- The body of the loop over the lines.
unfoldable pub parse_line : Text → Values → Values
parse_line line out =
    let line = strip_comment line in
    if is_empty line then out else insert_entry (split_once b'=' line) out

unfoldable pub parse_lines : List Text → Values → Values
parse_lines [] out = out
parse_lines (line ∷ rest) out = parse_lines rest (parse_line line out)

unfoldable pub parse_conf_text : Text → Values
parse_conf_text raw = parse_lines (lines raw) []

abbrev pub kb : ℕ
kb = 1024

abbrev pub mb : ℕ
mb = kb * 1024

abbrev pub gb : ℕ
gb = mb * 1024

abbrev pub suffixes : List (Text × ℕ)
suffixes =
    (codes "gb", gb)
    ∷ (codes "g", gb)
    ∷ (codes "mb", mb)
    ∷ (codes "m", mb)
    ∷ (codes "kb", kb)
    ∷ (codes "k", kb)
    ∷ []

abbrev pub normalized : Text → Text
normalized raw = without_char b'_' (to_ascii_lowercase (trim raw))

module _ {F : Type 0} (sizes : Sizes F) where
  abbrev pub scaled : ℕ → Option F → Option ℕ
  scaled mul none = none
  scaled mul (some base) = some (sizes.as_u64 (sizes.times base (sizes.as_f64 mul)))

  abbrev pub or_scaled : ℕ → Option Text → Option ℕ → Option ℕ
  or_scaled mul none rest = rest
  or_scaled mul (some n) rest = scaled mul (sizes.parse_f64 (trim n))

  -- The loop over the suffixes, of which the first that fits decides; without one the plain number.
  unfoldable pub parse_suffixes : List (Text × ℕ) → Text → Option ℕ
  parse_suffixes [] s = parse_uint u64_mod s
  parse_suffixes ((suffix, mul) ∷ rest) s =
      or_scaled mul (strip_suffix suffix s) (parse_suffixes rest s)

  unfoldable pub parse_size : Text → Option ℕ
  parse_size raw = let s = normalized raw in if is_empty s then none else parse_suffixes suffixes s

abbrev pub and_then {ℓ κ} : {A : Type ℓ} {B : Type κ} → Option A → (A → Option B) → Option B
and_then none f = none
and_then (some a) f = f a

unfoldable pub get_str : Text → FileConfig → Option Text
get_str key file = get key file.values

unfoldable pub get_usize : Text → FileConfig → Option ℕ
get_usize key file = and_then (get_str key file) (parse_uint (2 ^ 64))

unfoldable pub get_u64 : {F : Type 0} → Sizes F → Text → FileConfig → Option ℕ
get_u64 sizes key file = and_then (get_str key file) (parse_size sizes)

unfoldable pub get_u16 : Text → FileConfig → Option ℕ
get_u16 key file = and_then (get_str key file) (parse_uint u16_mod)

unfoldable pub format_socket_addr : Text → ℕ → Text
format_socket_addr host port =
    let host = trim host in
    if starts_with b'[' host
    then host ++ (b':' ∷ decimal port)
    else if contains b':' host
    then (b'[' ∷ host) ++ (b']' ∷ b':' ∷ decimal port)
    else host ++ (b':' ∷ decimal port)

-- `Path::join` with a relative path, on Unix.
abbrev pub join : Text → Text → Text
join [] path = path
join (c ∷ []) path = if c == b'/' then c ∷ path else c ∷ b'/' ∷ path
join (c ∷ d ∷ dir) path = c ∷ join (d ∷ dir) path

-- `environment` is the value of `CUPIDMQ_CONFIG`.
unfoldable pub resolve_config_path : Option Text → Option Text → Text → Text
resolve_config_path (some explicit) environment cwd = explicit
resolve_config_path none none cwd = join cwd (codes "cupidmq.conf")
resolve_config_path none (some env) cwd =
    if is_empty env then join cwd (codes "cupidmq.conf") else env

pub record CliOverrides : Type 0 where
  pub host : Option Text
  pub control_port : Option ℕ
  pub metrics_port : Option ℕ
  pub history_interval_ms : Option ℕ
  pub history_cap : Option ℕ
  pub dashboard_dir : Option Text

pub record ResolvedConfig : Type 0 where
  pub config_path : Option Text
  pub host : Text
  pub control_port : ℕ
  pub metrics_port : ℕ
  pub control : Text
  pub metrics : Text
  pub history_interval_ms : ℕ
  pub history_cap : ℕ
  pub dashboard_dir : Option Text

abbrev pub or_else {ℓ} : {A : Type ℓ} → Option A → Option A → Option A
or_else none o = o
or_else (some a) o = some a

abbrev pub unwrap_or {ℓ} : {A : Type ℓ} → Option A → A → A
unwrap_or none d = d
unwrap_or (some a) d = a

unfoldable pub resolve_bind : CliOverrides → Option FileConfig → Text × ℕ × ℕ
resolve_bind cli file =
    let host = unwrap_or (or_else cli.host (and_then file (get_str (codes "host")))) default_host in
    let control_port =
      unwrap_or (or_else cli.control_port (and_then file (get_u16 (codes "control_port"))))
        default_control_port in
    let metrics_port =
      unwrap_or (or_else cli.metrics_port (and_then file (get_u16 (codes "metrics_port"))))
        default_metrics_port in
    (host, control_port, metrics_port)

unfoldable pub resolve :
    {F : Type 0} → Sizes F → Option FileConfig → Option Text → CliOverrides → ResolvedConfig
resolve sizes file config_path cli =
    let (host, control_port, metrics_port) = resolve_bind cli file in
    record {
      config_path = config_path;
      host = host;
      control_port = control_port;
      metrics_port = metrics_port;
      control = format_socket_addr host control_port;
      metrics = format_socket_addr host metrics_port;
      history_interval_ms =
          unwrap_or
            (or_else cli.history_interval_ms
              (and_then file (get_u64 sizes (codes "history_interval_ms"))))
            2000;
      history_cap =
          unwrap_or (or_else cli.history_cap (and_then file (get_usize (codes "history_cap"))))
            1800;
      dashboard_dir = or_else cli.dashboard_dir (and_then file (get_str (codes "dashboard_dir")));
    }
