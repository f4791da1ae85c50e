-- ===== src/Config/Overrides.antt =====
-- internal/config/overrides.go: the `PRISON_*` environment variables. The environment is the
-- function `getenv`, with `none` for a variable that is not set.
pub mod Checked
pub mod Valid
use prison.Base.{
  ℕ, Bool, true, false, List, [], ◌∷◌, Option, none, some, Text, codes, ltb, if◌then◌else◌, not,
  Result, ok, err, ◌>>=◌, ◌>>◌, guard, text_eq, trim_space, fields,
}
use prison.Base.Decimal.{ℤ, pos, negsuc, atoi}
use prison.Base.Paths.{join_path}
use prison.Config.Values.{
  ConfigError, not_a_number, no_home, port_order, validate_name, validate_cpu_count,
  validate_memory_size, validate_port, require_single_line, require_text,
}

abbrev pub Environment : Type 0
Environment = Text → Option Text

pub record Overrides : Type 0 where
  pub inmates : Option (List Text)
  pub pager : Option Text
  pub diff_tool : Option Text
  pub cpus : Option ℤ
  pub memory : Option Text
  pub sudo : Option Bool
  pub port_list : Option (List ℤ)
  pub image : Text
  pub foundation : Text
  pub root : Text
  pub domain : Text
  pub network : Text
  pub broker_port : ℤ
  pub port_base : ℤ
  pub port_limit : ℤ

trimmed : Option Text → Text
trimmed none = []
trimmed (some value) = trim_space value

unfoldable pub value_of : Environment → Text → Text
unfolding trimmed
value_of getenv name = trimmed (getenv name)

number_of : Option ℤ → Result ConfigError ℤ
number_of none = err not_a_number
number_of (some n) = ok n

unfoldable pub parse_number : Text → Result ConfigError ℤ
unfolding number_of
parse_number text = number_of (atoi text)

unfoldable pub number_or : Environment → Text → ℤ → Result ConfigError ℤ
unfolding parse_number
number_or getenv name fallback =
    let text = value_of getenv name in if text_eq text [] then ok fallback else parse_number text

-- A loop over fields that stops at the first bad one.
unfoldable pub valid_names : List Text → Result ConfigError (List Text)
unfolding validate_name
valid_names [] = ok []
valid_names (name ∷ names) = do validate_name name; rest ← valid_names names; ok (name ∷ rest)

unfoldable pub valid_ports : List Text → Result ConfigError (List ℤ)
unfolding parse_number validate_port
valid_ports [] = ok []
valid_ports (field ∷ rest) = do
  port ← parse_number field
  validate_port port
  ports ← valid_ports rest
  ok (port ∷ ports)

pub inmates_of : Option Text → Result ConfigError (Option (List Text))
inmates_of none = ok none
inmates_of (some text) = do names ← valid_names (fields text); ok (some names)

unfoldable pub read_inmates : Environment → Overrides → Result ConfigError Overrides
unfolding inmates_of
read_inmates getenv o = do
  inmates ← inmates_of (getenv (codes "PRISON_INMATES"))
  ok (record o { inmates = inmates })

pub cpus_of : Text → Result ConfigError (Option ℤ)
cpus_of [] = ok none
cpus_of (c ∷ s) = do count ← parse_number (c ∷ s); validate_cpu_count count; ok (some count)

pub memory_of : Text → Result ConfigError (Option Text)
memory_of [] = ok none
memory_of (c ∷ s) = do validate_memory_size (c ∷ s); ok (some (c ∷ s))

sudo_of : Option Text → Option Bool
sudo_of none = none
sudo_of (some text) = some (text_eq text (codes "1"))

pub ports_of : Option Text → Result ConfigError (Option (List ℤ))
ports_of none = ok none
ports_of (some text) = do ports ← valid_ports (fields text); ok (some ports)

unfoldable pub read_box_shape : Environment → Overrides → Result ConfigError Overrides
unfolding cpus_of memory_of sudo_of ports_of
read_box_shape getenv o = do
  cpus ← cpus_of (value_of getenv (codes "PRISON_CPUS"))
  memory ← memory_of (value_of getenv (codes "PRISON_MEMORY"))
  ports ← ports_of (getenv (codes "PRISON_PORTS"))
  ok (record o {
    cpus = cpus;
    memory = memory;
    sudo = sudo_of (getenv (codes "PRISON_SUDO"));
    port_list = ports;
  })

-- An empty value is kept, since it turns the tool off.
pub tool_of : Option Text → Result ConfigError (Option Text)
tool_of none = ok none
tool_of (some text) = do require_single_line text; ok (some text)

unfoldable pub read_checkpoint_tools : Environment → Overrides → Result ConfigError Overrides
unfolding tool_of
read_checkpoint_tools getenv o = do
  pager ← tool_of (getenv (codes "PRISON_PAGER"))
  diff_tool ← tool_of (getenv (codes "PRISON_DIFF_TOOL"))
  ok (record o { pager = pager; diff_tool = diff_tool })

root_of : Text → Text → Result ConfigError Text
root_of [] [] = err no_home
root_of [] (c ∷ home) = ok (join_path (c ∷ home) (codes ".prison"))
root_of (c ∷ root) home = ok (c ∷ root)

pub text_or : Text → Text → Result ConfigError Text
text_or [] fallback = ok fallback
text_or (c ∷ s) fallback = do require_text (c ∷ s); ok (c ∷ s)

pub checked_port_or : Environment → Text → ℤ → Result ConfigError ℤ
unfolding number_or
checked_port_or getenv name fallback = do
  value ← number_or getenv name fallback
  validate_port value
  ok value

unfoldable pub above : ℤ → ℤ → Bool
above (pos a) (pos b) = ltb b a
above (pos a) (negsuc b) = true
above (negsuc a) (pos b) = false
above (negsuc a) (negsuc b) = ltb a b

unfoldable pub read_host_placement : Environment → Overrides → Result ConfigError Overrides
unfolding root_of text_or checked_port_or above
read_host_placement getenv o = do
  root ← root_of (value_of getenv (codes "PRISON_ROOT")) (value_of getenv (codes "HOME"))
  require_text root
  domain ← text_or (value_of getenv (codes "PRISON_DOMAIN")) o.domain
  network ← text_or (value_of getenv (codes "PRISON_NETWORK")) o.network
  broker_port ← checked_port_or getenv (codes "PRISON_BROKER_PORT") (pos 8787)
  port_base ← checked_port_or getenv (codes "PRISON_PORT_BASE") (pos 40000)
  port_limit ← checked_port_or getenv (codes "PRISON_PORT_LIMIT") (pos 40100)
  guard (not (above port_base port_limit)) port_order
  ok (record o {
    root = root;
    domain = domain;
    network = network;
    broker_port = broker_port;
    port_base = port_base;
    port_limit = port_limit;
  })

initial : Environment → Overrides
initial getenv = record {
  inmates = none;
  pager = none;
  diff_tool = none;
  cpus = none;
  memory = none;
  sudo = none;
  port_list = none;
  image = value_of getenv (codes "PRISON_IMAGE");
  foundation = value_of getenv (codes "PRISON_FOUNDATION");
  root = [];
  domain = codes "prison";
  network = codes "prison";
  broker_port = pos 0;
  port_base = pos 0;
  port_limit = pos 0;
}

unfoldable pub read_overrides : Environment → Result ConfigError Overrides
unfolding initial read_inmates read_box_shape read_checkpoint_tools read_host_placement value_of
read_overrides getenv = do
  a ← read_inmates getenv (initial getenv)
  b ← read_box_shape getenv a
  c ← read_checkpoint_tools getenv b
  read_host_placement getenv c
