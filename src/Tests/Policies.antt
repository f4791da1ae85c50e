-- ===== src/Tests/Policies.antt =====
-- Allowlists: internal/policy/policy.go and the answer of internal/broker/zone.go.
use prison.Base.{
  ℕ, ◌≡◌, ◌↔◌, ◌⊎◌, refl, inl, inr, true, false, List, [], ◌∷◌, ◌++◌, Text, codes, ok, All, Any,
  arith, contains, if◌then◌else◌, length,
}
use prison.Base.Decimal.{itoa}
use mathlib.Core.List.{flatten}
use prison.Policy.{
  Pattern, AllowList, parse_pattern, pattern_string, matches_host, matches_port, normalize_host,
  allows, new_allow_list, strings, bad_host, parse_list,
}
use prison.Policy.Entry.{IsEntry, parse_pattern-IsEntry, line_space, HostChar}
use prison.Policy.RoundTrip.{IsAscii, parse_pattern-pattern_string}
use prison.Policy.Match.{matches_host_iff, allows_iff, allows-suggested}
use prison.Policy.Dedup.{Distinct, new_allow_list-Distinct, allows-new_allow_list}
use prison.Hosts.{
  IsLine, text_lines, parse_hosts_answer, parse_list-text_lines, parse_hosts_answer-decides,
}

abbrev registry : Pattern
registry = record {
  host = codes "npm.io";
  wildcard = true;
  all_ports = false;
  ports = 80 ∷ 443 ∷ [];
}

abbrev service : Pattern
service = record { host = codes "db.io"; wildcard = false; all_ports = false; ports = 5432 ∷ [] }

registry-parsed : parse_pattern (codes "*.npm.io") ≡ ok registry
unfolding parse_pattern prison.Base.text_eq prison.Base.trim_space prison.Base.contains_any
    prison.Base.cut prison.Base.has_prefix prison.Base.to_lower prison.Base.trim_suffix
    prison.Base.has_suffix
registry-parsed = refl

registry-IsEntry : IsEntry registry
registry-IsEntry =
    parse_pattern-IsEntry (codes "*.npm.io") registry
      (refl, (refl, (refl, (refl, (refl, (refl, (refl, (refl, tt)))))))) registry-parsed

service-parsed : parse_pattern (codes "db.io:5432") ≡ ok service
unfolding parse_pattern prison.Base.text_eq prison.Base.trim_space prison.Base.contains_any
    prison.Base.cut prison.Base.has_prefix prison.Base.to_lower prison.Base.trim_suffix
    prison.Base.has_suffix prison.Base.Decimal.atoi
service-parsed = refl

one_line : All (λ c. line_space c ≡ false) (codes "db.io:5432")
one_line = (refl, (refl, (refl, (refl, (refl, (refl, (refl, (refl, (refl, (refl, tt))))))))))

service-IsEntry : IsEntry service
service-IsEntry = parse_pattern-IsEntry (codes "db.io:5432") service one_line service-parsed

parse_pattern-IsEntry_example : IsEntry service
parse_pattern-IsEntry_example =
    parse_pattern-IsEntry (codes "db.io:5432") service one_line service-parsed

parse_pattern-pattern_string_example : parse_pattern (pattern_string service) ≡ ok service
parse_pattern-pattern_string_example =
    parse_pattern-pattern_string service service-IsEntry (omega arith)

matches_host_example : (matches_host registry (codes "a.NPM.io.") ≡ true) ↔ (
    (normalize_host (codes "a.NPM.io.") ≡ registry.host)
    ⊎ ((registry.wildcard ≡ true)
        × (sub : Text) × (normalize_host (codes "a.NPM.io.") ≡ sub ++ b'.' ∷ registry.host)))
matches_host_example = matches_host_iff registry (codes "a.NPM.io.")

abbrev two_patterns : AllowList
two_patterns = registry ∷ service ∷ []

allows_example :
    (((allows two_patterns (codes "db.io") 443).allowed ≡ true)
      ↔ Any
          (λ p. (matches_host p (codes "db.io") ≡ true) × (matches_port p 443 ≡ true))
          two_patterns)
    × (((allows two_patterns (codes "db.io") 443).host_known ≡ true)
        ↔ Any (λ p. matches_host p (codes "db.io") ≡ true) two_patterns)
    × ((allows two_patterns (codes "db.io") 443).suggested ≡ (
        if (allows two_patterns (codes "db.io") 443).allowed
        then []
        else if (allows two_patterns (codes "db.io") 443).host_known
        then normalize_host (codes "db.io") ++ b':' ∷ itoa 443
        else []))
allows_example = allows_iff two_patterns (codes "db.io") 443

refused : (allows two_patterns (codes "db.io") 443).allowed ≡ false
unfolding allows matches_host prison.Base.text_eq prison.Base.to_lower prison.Base.trim_suffix
    prison.Base.has_suffix matches_port
refused = refl

known : (allows two_patterns (codes "db.io") 443).host_known ≡ true
unfolding allows matches_host prison.Base.text_eq prison.Base.to_lower prison.Base.trim_suffix
    prison.Base.has_suffix matches_port
known = refl

plain_host : All HostChar (normalize_host (codes "db.io"))
unfolding normalize_host prison.Base.to_lower prison.Base.trim_suffix
plain_host = service-IsEntry.chars

x_host-IsAscii : All IsAscii (normalize_host (codes "db.io"))
unfolding normalize_host prison.Base.to_lower prison.Base.trim_suffix
x_host-IsAscii = omega arith

good_host : bad_host (normalize_host (codes "db.io")) ≡ false
unfolding normalize_host prison.Base.to_lower prison.Base.trim_suffix
good_host = service-IsEntry.shape

allows-suggested_example :
    (p : Pattern) × (parse_pattern (allows two_patterns (codes "db.io") 443).suggested ≡ ok p)
    × ((allows (two_patterns ++ p ∷ []) (codes "db.io") 443).allowed ≡ true)
allows-suggested_example =
    allows-suggested two_patterns (codes "db.io") 443 refused known plain_host x_host-IsAscii
      good_host (omega arith) (omega arith)

abbrev given : List (List Pattern)
given = (registry ∷ service ∷ []) ∷ (service ∷ []) ∷ []

new_allow_list-Distinct_example :
    Distinct (strings (new_allow_list given)) × All IsEntry (new_allow_list given)
new_allow_list-Distinct_example =
    new_allow_list-Distinct given
      ((registry-IsEntry, (service-IsEntry, tt)), ((service-IsEntry, tt), tt))

allows-new_allow_list_example :
    allows (new_allow_list given) (codes "db.io") 5432 ≡ allows (flatten given) (codes "db.io") 5432
allows-new_allow_list_example =
    allows-new_allow_list given (codes "db.io") 5432
      ((registry-IsEntry, (service-IsEntry, tt)), ((service-IsEntry, tt), tt))

service-IsLine : IsLine service
unfolding contains pattern_string itoa prison.Base.byte_length
service-IsLine = record {
  entry = service-IsEntry;
  ascii = omega arith;
  no_comment = refl;
  short = omega arith;
}

parse_list-text_lines_example : parse_list (text_lines (strings (service ∷ []))) ≡ ok (service ∷ [])
parse_list-text_lines_example = parse_list-text_lines (service ∷ []) (service-IsLine, tt)

list-IsLine : All IsLine (new_allow_list ((service ∷ []) ∷ []))
unfolding new_allow_list
list-IsLine = (service-IsLine, tt)

parse_hosts_answer-decides_example :
    (guest : AllowList) × (parse_hosts_answer
        (text_lines (strings (new_allow_list ((service ∷ []) ∷ []))))
      ≡ ok (guest, length (new_allow_list ((service ∷ []) ∷ []))))
    × (allows guest (codes "db.io") 5432
        ≡ allows (flatten ((service ∷ []) ∷ [])) (codes "db.io") 5432)
parse_hosts_answer-decides_example =
    parse_hosts_answer-decides ((service ∷ []) ∷ []) (codes "db.io") 5432
      ((service-IsEntry, tt), tt) list-IsLine
