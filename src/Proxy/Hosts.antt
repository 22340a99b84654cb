-- ===== src/Proxy/Hosts.antt =====
-- proxy/handler.go: the guard against forwarding to the proxy itself. Parsing of URLs, of host:port
-- and of IP addresses is Go's (net/url, net), and stands in the record Net.
pub mod Loops
use Prim.Native.Char.{code}
use Prim.Native.String.{[] as empty, ◌∷◌ as ◌∷ₛ◌}
use blind_llm_eyes.Base.{
  String, str_eq, Bool, false, ◌&&◌, ◌||◌, ◌==◌, if◌then◌else◌, Option, none, some,
}
use blind_llm_eyes.Messages.Validate.{trim_space}

pub record Url : Type 0 where
  pub scheme : String
  pub host : String

pub record Ip : Type 0 where
  pub is_loopback : Bool
  pub is_unspecified : Bool
  pub canonical : String

-- url.Parse, net.SplitHostPort, net.ParseIP and strings.ToLower
pub record Net : Type 0 where
  pub parse_url : String → Option Url
  pub split_host_port : String → Option (String × String)
  pub parse_ip : String → Option Ip
  pub to_lower : String → String

-- strings.TrimSuffix(h, "]")
abbrev pub trim_suffix : String → String
trim_suffix empty = ""
trim_suffix (c ∷ₛ s) =
    let rest = trim_suffix s in if code c == 93 && str_eq s "" then "" else c ∷ₛ rest

-- strings.TrimPrefix(h, "[")
abbrev pub trim_prefix : String → String
trim_prefix empty = ""
trim_prefix (c ∷ₛ s) = if code c == 91 then s else c ∷ₛ s

-- strings.TrimRight(h, ".")
abbrev pub trim_dots : String → String
trim_dots empty = ""
trim_dots (c ∷ₛ s) =
    let rest = trim_dots s in if code c == 46 && str_eq rest "" then "" else c ∷ₛ rest

unfoldable pub default_port : String → String
default_port scheme =
    if str_eq scheme "https" then "443" else if str_eq scheme "http" then "80" else ""

module _ (net : Net) where
  open net use {parse_url, split_host_port, parse_ip, to_lower}

  unfoldable pub normalize_host : String → String
  normalize_host host =
      let h = trim_dots (trim_prefix (trim_suffix (to_lower (trim_space host)))) in
      elim (parse_ip h) [
        | some ip ↦
            if ip.is_loopback
            then "127.0.0.1"
            else if ip.is_unspecified
            then "127.0.0.1"
            else ip.canonical
        | none ↦ if str_eq h "localhost" then "127.0.0.1" else h
      ]

  abbrev url_endpoint : Url → String × String
  url_endpoint u = elim (split_host_port u.host) [
    | some hp ↦ hp
    | none ↦ (u.host, default_port u.scheme)
  ]

  abbrev same_endpoint : String × String → String × String → Bool
  same_endpoint u p = str_eq (normalize_host u.0) (normalize_host p.0) && str_eq u.1 p.1

  unfoldable pub is_self_referential_url : String → String → Bool
  is_self_referential_url url listen =
      if str_eq url "" || str_eq listen "" then false else elim (parse_url url) [
        | none ↦ false
        | some u ↦ if str_eq u.host "" then false else elim (split_host_port listen) [
          | none ↦ false
          | some p ↦ same_endpoint (url_endpoint u) p
        ]
      ]
