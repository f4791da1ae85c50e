-- ===== src/Config/Overrides/Valid.antt =====
-- internal/config/overrides.go: the values that `ReadOverrides` returns.
use prison.Base.{
  ◌≡◌, refl, trim_space, contains_any, true, false, not, codes, All, arith, ok, guard, bind-ok,
  guard-ok, ok-injective, subst,
}
use prison.Base.Decimal.{pos}
use prison.Config.Values.{port_order, is_name, require_text}
use prison.Config.Overrides.{
  Environment, Overrides, value_of, inmates_of, ports_of, cpus_of, checked_port_or, above,
  read_inmates, read_box_shape, read_checkpoint_tools, read_host_placement, read_overrides, root_of,
  text_or, memory_of, tool_of, initial,
}
use prison.Config.Overrides.Checked.{
  InRange, WhenSet, inmates_of-valid, ports_of-valid, cpus_of-valid, checked_port_or-InRange,
  IsSingleLine, IsText, not-true, require_text-IsText, text_or-IsText, tool_of-valid, IsMemory,
  memory_of-valid,
}

pub record IsValid (o : Overrides) : Type 0 where
  pub inmates_named : WhenSet (All (λ s. is_name s ≡ true)) o.inmates
  pub cpus_in_range : WhenSet (InRange 1 32) o.cpus
  pub memory_sized : WhenSet IsMemory o.memory
  pub ports_in_range : WhenSet (All (InRange 1 65535)) o.port_list
  pub pager_line : WhenSet IsSingleLine o.pager
  pub diff_tool_line : WhenSet IsSingleLine o.diff_tool
  pub root_text : IsText o.root
  pub domain_text : IsText o.domain
  pub network_text : IsText o.network
  pub broker_in_range : InRange 1 65535 o.broker_port
  pub base_in_range : InRange 1 65535 o.port_base
  pub limit_in_range : InRange 1 65535 o.port_limit
  pub ordered : above o.port_base o.port_limit ≡ false

-- What the first step leaves: the inmates, and the domain and network of the start.
pub record InmatesNamed (o : Overrides) : Type 0 where
  pub named : WhenSet (All (λ s. is_name s ≡ true)) o.inmates
  pub domain_text : IsText o.domain
  pub network_text : IsText o.network

pub record Shaped (o : Overrides) : Type 0 where
  pub start : InmatesNamed o
  pub cpus : WhenSet (InRange 1 32) o.cpus
  pub memory : WhenSet IsMemory o.memory
  pub ports : WhenSet (All (InRange 1 65535)) o.port_list

pub record Tooled (o : Overrides) : Type 0 where
  pub shaped : Shaped o
  pub pager : WhenSet IsSingleLine o.pager
  pub diff_tool : WhenSet IsSingleLine o.diff_tool

prison-IsText : IsText (codes "prison")
unfolding trim_space contains_any
prison-IsText = ((λ e. absurd (grind (arith, e))), refl)

read_inmates-InmatesNamed :
    (getenv : Environment) (out : Overrides)
    → read_inmates getenv (initial getenv) ≡ ok out
    → InmatesNamed out
unfolding read_inmates initial
read_inmates-InmatesNamed getenv out h =
    let name = getenv (codes "PRISON_INMATES") in
    let (inmates, e, h1) = bind-ok (inmates_of name) _ out h in
    subst InmatesNamed (ok-injective h1) (record {
      named = inmates_of-valid name inmates e;
      domain_text = prison-IsText;
      network_text = prison-IsText;
    })

read_box_shape-Shaped :
    (getenv : Environment) (o out : Overrides)
    → InmatesNamed o
    → read_box_shape getenv o ≡ ok out
    → Shaped out
unfolding read_box_shape
read_box_shape-Shaped getenv o out start h =
    let cpus_text = value_of getenv (codes "PRISON_CPUS") in
    let memory_text = value_of getenv (codes "PRISON_MEMORY") in
    let (cpus, e1, h1) = bind-ok (cpus_of cpus_text) _ out h in
    let (memory, e2, h2) = bind-ok (memory_of memory_text) _ out h1 in
    let (ports, e3, h3) = bind-ok (ports_of (getenv (codes "PRISON_PORTS"))) _ out h2 in
    subst Shaped (ok-injective h3) (record {
      start = record {
        named = start.named;
        domain_text = start.domain_text;
        network_text = start.network_text;
      };
      cpus = cpus_of-valid cpus_text cpus e1;
      memory = memory_of-valid memory_text memory e2;
      ports = ports_of-valid (getenv (codes "PRISON_PORTS")) ports e3;
    })

read_checkpoint_tools-Tooled :
    (getenv : Environment) (o out : Overrides)
    → Shaped o
    → read_checkpoint_tools getenv o ≡ ok out
    → Tooled out
unfolding read_checkpoint_tools
read_checkpoint_tools-Tooled getenv o out shaped h =
    let (pager, e1, h1) = bind-ok (tool_of (getenv (codes "PRISON_PAGER"))) _ out h in
    let (diff_tool, e2, h2) = bind-ok (tool_of (getenv (codes "PRISON_DIFF_TOOL"))) _ out h1 in
    subst Tooled (ok-injective h2) (record {
      shaped = record {
        start = record {
          named = shaped.start.named;
          domain_text = shaped.start.domain_text;
          network_text = shaped.start.network_text;
        };
        cpus = shaped.cpus;
        memory = shaped.memory;
        ports = shaped.ports;
      };
      pager = tool_of-valid (getenv (codes "PRISON_PAGER")) pager e1;
      diff_tool = tool_of-valid (getenv (codes "PRISON_DIFF_TOOL")) diff_tool e2;
    })

read_host_placement-IsValid :
    (getenv : Environment) (o out : Overrides)
    → Tooled o
    → read_host_placement getenv o ≡ ok out
    → IsValid out
unfolding read_host_placement
read_host_placement-IsValid getenv o out tools h =
    let (root, e1, h1) =
      bind-ok (root_of (value_of getenv (codes "PRISON_ROOT")) (value_of getenv (codes "HOME"))) _
        out h in
    let (u, e2, h2) = bind-ok (require_text root) _ out h1 in
    let (domain, e3, h3) =
      bind-ok (text_or (value_of getenv (codes "PRISON_DOMAIN")) o.domain) _ out h2 in
    let (network, e4, h4) =
      bind-ok (text_or (value_of getenv (codes "PRISON_NETWORK")) o.network) _ out h3 in
    let (broker_port, e5, h5) =
      bind-ok (checked_port_or getenv (codes "PRISON_BROKER_PORT") (pos 8787)) _ out h4 in
    let (base, e6, h6) =
      bind-ok (checked_port_or getenv (codes "PRISON_PORT_BASE") (pos 40000)) _ out h5 in
    let (limit, e7, h7) =
      bind-ok (checked_port_or getenv (codes "PRISON_PORT_LIMIT") (pos 40100)) _ out h6 in
    let (v, e8, h8) = bind-ok (guard (not (above base limit)) port_order) _ out h7 in
    subst IsValid (ok-injective h8) (record {
      inmates_named = tools.shaped.start.named;
      cpus_in_range = tools.shaped.cpus;
      memory_sized = tools.shaped.memory;
      ports_in_range = tools.shaped.ports;
      pager_line = tools.pager;
      diff_tool_line = tools.diff_tool;
      root_text = require_text-IsText root u e2;
      domain_text =
          text_or-IsText (value_of getenv (codes "PRISON_DOMAIN")) o.domain domain
            tools.shaped.start.domain_text e3;
      network_text =
          text_or-IsText (value_of getenv (codes "PRISON_NETWORK")) o.network network
            tools.shaped.start.network_text e4;
      broker_in_range =
          checked_port_or-InRange getenv (codes "PRISON_BROKER_PORT") (pos 8787) broker_port e5;
      base_in_range = checked_port_or-InRange getenv (codes "PRISON_PORT_BASE") (pos 40000) base e6;
      limit_in_range =
          checked_port_or-InRange getenv (codes "PRISON_PORT_LIMIT") (pos 40100) limit e7;
      ordered = not-true (above base limit) (guard-ok (not (above base limit)) port_order v e8);
    })

-- What `read_overrides` returns without an error: where they are set, each inmate is a name, the CPU count is
-- between 1 and 32, the memory a size, each port between 1 and 65535, and the pager and the diff tool
-- single lines; the root, the domain and the network are single lines that are not white space alone; the
-- broker port and the two ends of the port range are ports, and the range is not reversed.
pub read_overrides-IsValid :
    (getenv : Environment) (o : Overrides) → read_overrides getenv ≡ ok o → IsValid o
unfolding read_overrides
read_overrides-IsValid getenv o h =
    let (a, e1, h1) = bind-ok (read_inmates getenv (initial getenv)) _ o h in
    let (b, e2, h2) = bind-ok (read_box_shape getenv a) _ o h1 in
    let (c, e3, h3) = bind-ok (read_checkpoint_tools getenv b) _ o h2 in
    let named = read_inmates-InmatesNamed getenv a e1 in
    let tools =
      read_checkpoint_tools-Tooled getenv b c (read_box_shape-Shaped getenv a b named e2) e3 in
    read_host_placement-IsValid getenv c o tools h3
