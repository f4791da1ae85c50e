-- ===== src/Policy/RoundTrip.antt =====
-- internal/policy/policy.go: `ParsePattern` on what `Pattern.String` writes.
use prison.Base.{
  ℕ, ◌≤◌, ◌<◌, ◌≡◌, refl, ◌∙◌, inl, inr, Bool, true, false, List, [], ◌∷◌, ◌++◌, append-nil, Text,
  Lacks, codes, if◌then◌else◌, ok, text_eq, has_prefix, has_suffix, ascii_space, is_space,
  trim_space, lower, contains, cut, drop, All, All-append, arith,
}
use prison.Base.Chars.{
  All-imp, trim_space_id, trim_suffix_id, to_lower_id, cut-append, cut_absent, Lacks-All,
  contains_any-All,
}
use prison.Base.Decimal.{itoa, itoa_shape, itoa-IsDigit, atoi-itoa, IsDigit}
use prison.Policy.{
  Pattern, parse_pattern, parse_entry, is_default_ports, parse_ports, bad_host, pattern_string,
  port_suffix,
}
use prison.Policy.Entry.{HostChar, ArePorts, IsEntry}

-- A character that is no ASCII space and that `ParsePattern` takes in an entry.
abbrev Plain : ℕ → Type 0
Plain c = (ascii_space c ≡ false) × (contains c (codes "/@ \t") ≡ false)

HostChar-Plain : (c : ℕ) → HostChar c → Plain c
unfolding ascii_space contains
HostChar-Plain c h = ground arith

IsDigit-Plain : (c : ℕ) → IsDigit c → Plain c
unfolding ascii_space contains
IsDigit-Plain c h = ground arith

-- `front:ports`, where the front is the host with or without the star.
front_of : Bool → Text → Text
front_of w host = if w then b'*' ∷ b'.' ∷ host else host

-- The entry with a port text behind the colon, or with none.
abbrev with_suffix : Bool → Text → Text → Text
with_suffix true t front = front ++ b':' ∷ t
with_suffix false t front = front

front-Plain : (w : Bool) (host : Text) → All HostChar host → All Plain (front_of w host)
unfolding front_of ascii_space contains
front-Plain true host h =
    ((refl, refl), ((refl, refl), All-imp HostChar Plain HostChar-Plain host h))
front-Plain false host h = All-imp HostChar Plain HostChar-Plain host h

HostChar-Lacks : (host : Text) → All HostChar host → Lacks b':' host
HostChar-Lacks host h = Lacks-All b':' host (All-imp HostChar _ (λ c k. k.3) host h)

front-Lacks : (w : Bool) (host : Text) → All HostChar host → Lacks b':' (front_of w host)
unfolding front_of contains
front-Lacks true host h = HostChar-Lacks host h
front-Lacks false host h = HostChar-Lacks host h

front-no_dot :
    (w : Bool) (host : Text)
    → bad_host host ≡ false
    → has_suffix (front_of w host) (codes ".") ≡ false
unfolding front_of has_suffix bad_host
front-no_dot true [] h = ground arith
front-no_dot true (c ∷ s) h = ground arith
front-no_dot false host h = ground arith

front-lower :
    (w : Bool) (host : Text) → All HostChar host → All (λ c. lower c ≡ c) (front_of w host)
unfolding front_of lower
front-lower true host h = (refl, (refl, All-imp HostChar _ (λ c k. k.4) host h))
front-lower false host h = All-imp HostChar _ (λ c k. k.4) host h

front-wild :
    (w : Bool) (host : Text) → bad_host host ≡ false → has_prefix (front_of w host) (codes "*.") ≡ w
unfolding front_of has_prefix bad_host contains
front-wild true [] h = ground arith
front-wild true (c ∷ s) h = ground arith
front-wild false [] h = ground arith
front-wild false (c ∷ s) h = ground arith

front-drop :
    (w : Bool) (host : Text) → (if w then drop 2 (front_of w host) else front_of w host) ≡ host
unfolding front_of
front-drop true host = refl
front-drop false host = refl

front-filled :
    (w : Bool) (host s : Text) → bad_host host ≡ false → text_eq (front_of w host ++ s) [] ≡ false
unfolding front_of bad_host text_eq
front-filled true host s h = refl
front-filled false [] s h = absurd (ground arith)
front-filled false (c ∷ t) s h = refl

module _ (w : Bool) (host : Text) (chars : All HostChar host) (shape : bad_host host ≡ false) where
  parse_canonical :
      (e t : Text) (has_port : Bool)
      → All Plain e
      → text_eq e [] ≡ false
      → cut b':' e ≡ (front_of w host, t, has_port)
      → Lacks b':' t
      → parse_entry e ≡ parse_ports host w t has_port
  unfolding parse_entry
  parse_canonical e t has_port plain filled split lacks =
      let clean = (contains_any-All e (codes "/@ \t")).1 (All-imp Plain _ (λ c k. k.1) e plain) in
      let low = to_lower_id (front_of w host) (front-lower w host chars) in
      let dot = trim_suffix_id b'.' (front_of w host) (front-no_dot w host shape) in
      rw (filled, clean, split, lacks, dot, low, front-wild w host shape, front-drop w host, shape)

  abbrev pattern_with : Bool → List ℕ → Pattern
  pattern_with all ps = record { host = host; wildcard = w; all_ports = all; ports = ps }

  parse_number :
      (n : ℕ)
      → 1 ≤ n
      → n ≤ 65535
      → parse_ports host w (itoa n) true ≡ ok (pattern_with false (n ∷ []))
  unfolding parse_ports
  parse_number n lo hi =
      let (c, s, q, dlo, dhi, rest) = itoa_shape n in
      let other : text_eq (itoa n) (codes "*") ≡ false = rw q (unfold text_eq in (ground arith)) in
      rw (other, atoi-itoa n (omega arith)) (ground arith)

  number-Plain : (n : ℕ) → All Plain (itoa n)
  number-Plain n = All-imp IsDigit Plain IsDigit-Plain (itoa n) (itoa-IsDigit n)

  number-Lacks : (n : ℕ) → Lacks b':' (itoa n)
  number-Lacks n =
      Lacks-All b':' (itoa n) (All-imp IsDigit _ (λ c h. omega arith) (itoa n) (itoa-IsDigit n))

  -- An entry with the port text `t` behind a colon.
  parse_with_port :
      (t : Text)
      → All Plain t
      → Lacks b':' t
      → parse_entry (front_of w host ++ b':' ∷ t) ≡ parse_ports host w t true
  parse_with_port t plain lacks =
      let front = front_of w host in
      parse_canonical (front ++ b':' ∷ t) t true
        (All-append Plain front (b':' ∷ t) (front-Plain w host chars) (colon, plain))
        (front-filled w host (b':' ∷ t) shape) (cut-append b':' front t (front-Lacks w host chars))
        lacks
    where
      colon : Plain b':'
      colon = unfold ascii_space contains in (refl, refl)

  parse-fields :
      (all : Bool) (ps : List ℕ)
      → ArePorts all ps
      → parse_entry (front_of w host ++ port_suffix all ps) ≡ ok (pattern_with all ps)
  unfolding port_suffix
  parse-fields true ps h =
      let star : All Plain (codes "*") = unfold ascii_space contains in ((refl, refl), tt) in
      let colon : Lacks b':' (codes "*") = unfold contains in refl in
      rw h (parse_with_port (codes "*") star colon ∙ unfold parse_ports text_eq in refl)
  parse-fields false ps (inl e) =
      let front = front_of w host in
      rw (e, append-nil)
        (parse_canonical front [] false (front-Plain w host chars)
            (rw append-nil at (front-filled w host [] shape))
            (cut_absent b':' front (front-Lacks w host chars)) (unfold contains in refl)
          ∙ unfold parse_ports in refl)
  parse-fields false ps (inr (n, e, lo, hi)) =
      rw e (parse_with_port (itoa n) (number-Plain n) (number-Lacks n) ∙ parse_number n lo hi)

-- What is behind `TrimSpace` reads the text of a pattern as that pattern.
pub parse_entry-pattern_string : (p : Pattern) → IsEntry p → parse_entry (pattern_string p) ≡ ok p
unfolding pattern_string front_of
parse_entry-pattern_string p v =
    parse-fields p.wildcard p.host v.chars v.shape p.all_ports p.ports v.ports_valid

port_suffix-Plain : (all : Bool) (ps : List ℕ) → ArePorts all ps → All Plain (port_suffix all ps)
unfolding port_suffix ascii_space contains
port_suffix-Plain true ps h = ((refl, refl), ((refl, refl), tt))
port_suffix-Plain false ps (inl e) = rw e tt
port_suffix-Plain false ps (inr (n, e, _, _)) =
    rw e ((refl, refl), All-imp IsDigit Plain IsDigit-Plain (itoa n) (itoa-IsDigit n))

-- The text of a pattern has no ASCII space.
pub pattern_string-no_space :
    (p : Pattern) → IsEntry p → All (λ c. ascii_space c ≡ false) (pattern_string p)
unfolding pattern_string front_of
pattern_string-no_space p v =
    All-imp Plain _ (λ c k. k.0) (pattern_string p)
      (All-append Plain (front_of p.wildcard p.host) (port_suffix p.all_ports p.ports)
        (front-Plain p.wildcard p.host v.chars)
        (port_suffix-Plain p.all_ports p.ports v.ports_valid))

-- The text of a pattern is not empty.
pub pattern_string-filled : (p : Pattern) → IsEntry p → text_eq (pattern_string p) [] ≡ false
unfolding pattern_string front_of
pattern_string-filled p v = front-filled p.wildcard p.host (port_suffix p.all_ports p.ports) v.shape

-- A character for which the case mapping and the length in bytes are those of ASCII.
abbrev pub IsAscii : ℕ → Type 0
IsAscii c = c < 128

front-IsAscii : (w : Bool) (host : Text) → All IsAscii host → All IsAscii (front_of w host)
unfolding front_of
front-IsAscii true host h = (omega arith, (omega arith, h))
front-IsAscii false host h = h

number-IsAscii : (n : ℕ) → All IsAscii (itoa n)
number-IsAscii n = All-imp IsDigit IsAscii (λ c h. omega arith) (itoa n) (itoa-IsDigit n)

port_suffix-IsAscii :
    (all : Bool) (ps : List ℕ) → ArePorts all ps → All IsAscii (port_suffix all ps)
unfolding port_suffix
port_suffix-IsAscii true ps h = (omega arith, (omega arith, tt))
port_suffix-IsAscii false ps (inl e) = rw e tt
port_suffix-IsAscii false ps (inr (n, e, _, _)) =
    rw e (unfold is_default_ports in (omega arith, number-IsAscii n))

plain_ascii : (c : ℕ) → (ascii_space c ≡ false) × IsAscii c → is_space c ≡ false
unfolding is_space ascii_space
plain_ascii c h = ground arith

All-both :
    (P Q R : ℕ → Type 0) (s : Text) → ((c : ℕ) → P c × Q c → R c) → All P s → All Q s → All R s
All-both P Q R [] f h k = tt
All-both P Q R (c ∷ s) f (h, t) (k, u) = (f c (h, k), All-both P Q R s f t u)

-- `TrimSpace` leaves the text of a pattern with an ASCII host as it is.
pub pattern_string-trimmed :
    (p : Pattern)
    → IsEntry p
    → All IsAscii p.host
    → trim_space (pattern_string p) ≡ pattern_string p
pattern_string-trimmed p v h = trim_space_id (pattern_string p) (
    All-both _ IsAscii _ (pattern_string p) plain_ascii (pattern_string-no_space p v) (
      unfold pattern_string front_of in
      (All-append IsAscii (front_of p.wildcard p.host) (port_suffix p.all_ports p.ports)
        (front-IsAscii p.wildcard p.host h)
        (port_suffix-IsAscii p.all_ports p.ports v.ports_valid))))

-- Writing a pattern as text and parsing it gives the pattern back, for every pattern with an ASCII host that
-- an entry can stand for: a host in canonical form and all ports, the default ports, or one port in range.
pub parse_pattern-pattern_string :
    (p : Pattern) → IsEntry p → All IsAscii p.host → parse_pattern (pattern_string p) ≡ ok p
unfolding parse_pattern
parse_pattern-pattern_string p v h =
    rw (pattern_string-trimmed p v h) (parse_entry-pattern_string p v)
