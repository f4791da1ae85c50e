-- ===== src/Broker/Protocol.antt =====
-- internal/broker/protocol: the names of the broker's zone, and the proxy credentials of a project.
pub mod Names
pub mod Credentials
use prison.Base.{
  ℕ, Bool, true, false, ◌||◌, not, List, [], ◌∷◌, ◌++◌, Option, none, some, Text, codes, text_eq,
  to_lower, trim_suffix, trim_space, contains, cut, cut_suffix, if◌then◌else◌,
}
use prison.Broker.Base64.{encode, decode}

pub data ZoneKind : Type 0 where
  broker inmate route : ZoneKind

abbrev pub zone_suffix : Text
zone_suffix = codes ".prison.internal"

abbrev pub broker_host : Text
broker_host = codes "broker.prison.internal"

abbrev pub inmate_host : Text → Text
inmate_host name = name ++ codes ".inmate.prison.internal"

abbrev pub route_host : Text → Text
route_host name = name ++ codes ".route.prison.internal"

unfoldable pub normalize : Text → Text
normalize host = to_lower (trim_suffix b'.' host)

unfoldable pub label_kind : Text → Text → Option (ZoneKind × Text)
label_kind label kind_label =
    if text_eq kind_label (codes "inmate")
    then some (inmate, label)
    else if text_eq kind_label (codes "route")
    then some (route, label)
    else none

unfoldable pub zone_labels : Option Text → Option (ZoneKind × Text)
zone_labels none = none
zone_labels (some rest) =
    let (label, kind_label, has_kind) = cut b'.' rest in
    if not has_kind || text_eq label [] || contains b'.' kind_label
    then none
    else label_kind label kind_label

-- `ParseZoneName`
unfoldable pub parse_zone_name : Text → Option (ZoneKind × Text)
parse_zone_name host =
    let name = normalize host in
    if text_eq name broker_host
    then some (broker, [])
    else zone_labels (cut_suffix name zone_suffix)

-- `ProxyAuthorization`
unfoldable pub proxy_authorization : Text → Text
proxy_authorization token = codes "Basic " ++ encode (codes "prison:" ++ token)

unfoldable pub password_of : Option Text → Option Text
password_of none = none
password_of (some decoded) =
    let (user, password, has_colon) = cut b':' decoded in
    if not has_colon || text_eq password [] then none else some password

-- `TokenFromProxyAuthorization`
unfoldable pub token_from_proxy_authorization : Text → Option Text
token_from_proxy_authorization header =
    let (scheme, encoded, found) = cut b' ' (trim_space header) in
    if not found || not (text_eq (to_lower scheme) (codes "basic"))
    then none
    else password_of (decode (trim_space encoded))
