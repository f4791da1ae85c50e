-- ===== src/Tests/Settings.antt =====
-- Settings, secrets and rate limits: internal/config, internal/vault and internal/broker/limits.
use prison.Base.{
  ℕ, ◌≡◌, ◌≤◌, refl, Bool, true, false, List, [], ◌∷◌, Option, none, some, Text, codes, ok, text_eq,
  if◌then◌else◌, length, arith,
}
use prison.Base.Decimal.{ℤ, pos}
use prison.Config.Overrides.{Environment, Overrides, read_overrides}
use prison.Config.Overrides.Valid.{IsValid, read_overrides-IsValid}
use prison.Vault.{Secret, expose, validate_secret, is_secret_name}
use prison.Vault.Ready.{Ready, validate_secret-Ready}
use prison.Limits.Window.{Call, history, recent_count, allow-bounded}

abbrev getenv : Environment
getenv name =
    if text_eq name (codes "HOME")
    then some (codes "/home/ada")
    else if text_eq name (codes "PRISON_CPUS")
    then some (codes "8")
    else if text_eq name (codes "PRISON_INMATES")
    then some (codes "claude codex")
    else none

abbrev overrides : Overrides
overrides = record {
  inmates = some (codes "claude" ∷ codes "codex" ∷ []);
  pager = none;
  diff_tool = none;
  cpus = some (pos 8);
  memory = none;
  sudo = none;
  port_list = none;
  image = [];
  foundation = [];
  root = codes "/home/ada/.prison";
  domain = codes "prison";
  network = codes "prison";
  broker_port = pos 8787;
  port_base = pos 40000;
  port_limit = pos 40100;
}

overrides-read : read_overrides getenv ≡ ok overrides
unfolding read_overrides text_eq prison.Config.Overrides.valid_names prison.Base.fields
    prison.Base.trim_space prison.Base.Decimal.atoi prison.Config.Values.validate_cpu_count
    prison.Config.Values.require_text prison.Base.Paths.join_path prison.Base.Paths.clean
    prison.Base.has_prefix prison.Base.join prison.Base.split prison.Base.Slices.reverse
    prison.Base.contains_any prison.Config.Values.validate_port
overrides-read = refl

read_overrides-IsValid_example : IsValid overrides
read_overrides-IsValid_example = read_overrides-IsValid getenv overrides overrides-read

abbrev token : Secret
token = record {
  name = codes "npm-token";
  mode = expose;
  value = codes "s3cret";
  route_spec = none;
  sign_spec = none;
  expose_spec = some (record { variable = codes "NPM_TOKEN" });
}

token-accepted : validate_secret (some token) ≡ ok token
unfolding validate_secret prison.Base.contains_any
token-accepted = refl

validate_secret-Ready_example :
    (is_secret_name token.name ≡ true)
    × (text_eq token.name (codes "prison") ≡ false)
    × Ready token token.mode
validate_secret-Ready_example = validate_secret-Ready (some token) token token-accepted

abbrev calls : List Call
calls =
    record { key = codes "p/npm"; per_minute = 2; moment = 3 }
    ∷ record { key = codes "p/npm"; per_minute = 2; moment = 2 }
    ∷ record { key = codes "p/git"; per_minute = 1; moment = 2 }
    ∷ record { key = codes "p/npm"; per_minute = 2; moment = 1 }
    ∷ []

other_key : text_eq (codes "p/git") (codes "p/npm") ≡ true → ⊥
unfolding text_eq
other_key e = grind (arith, e)

allow-bounded_example : recent_count 4 (history (codes "p/npm") calls).0 ≤ 2
allow-bounded_example =
    allow-bounded (codes "p/npm") 2 4 calls (omega arith)
      (omega arith, (omega arith, (omega arith, (omega arith, tt))))
      (λ e. refl, (λ e. refl, (λ e. absurd (other_key e), (λ e. refl, tt))))
