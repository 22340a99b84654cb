-- ===== src/Server/Guards.antt =====
-- internal/pprofsec/middleware.go, and withMetricsAuth of main.go.
pub mod Served
use Prim.Native.Char.{Char, code}
use text.Mathlib.TextBridge.{to_list, of_list}
use blind_llm_eyes.Base.{
  ℕ, String, str_eq, Bool, not, ◌&&◌, ◌||◌, ◌==◌, if◌then◌else◌, Option, none, some, List, [], ◌∷◌,
}
use blind_llm_eyes.Proxy.Hosts.{Net, trim_dots, trim_prefix, trim_suffix}

-- The parts of an http.Request that the guards read: the query key token and two headers.
pub record HttpReq : Type 0 where
  pub method : String
  pub path : String
  pub query_token : String
  pub metrics_token : String
  pub admin_token : String
  pub remote_addr : String

pub record PprofCfg : Type 0 where
  pub enabled : Bool
  pub auth_token : String

-- The guard passes the request on, or answers with 404, 401 or 403.
pub data Guard : Type 0 where
  passed hidden unauthorized forbidden : Guard

abbrev pub provided_token : HttpReq → String
provided_token r = if str_eq r.query_token "" then r.metrics_token else r.query_token

unfoldable pub with_metrics_auth : String → HttpReq → Guard
with_metrics_auth token r = if str_eq (provided_token r) token then passed else unauthorized

-- What is before the first ]:
unfoldable pub before_close_colon : List Char → Option (List Char)
before_close_colon [] = none
before_close_colon (c ∷ []) = none
before_close_colon (c ∷ (d ∷ cs)) =
    if code c == 93 && code d == 58
    then some []
    else elim (before_close_colon (d ∷ cs)) [ none ↦ none | some h ↦ some (c ∷ h) ]

-- What is before the last character of this code.
unfoldable pub before_last : ℕ → List Char → Option (List Char)
before_last n [] = none
before_last n (c ∷ cs) = elim (before_last n cs) [
  | some h ↦ some (c ∷ h)
  | none ↦ if code c == n then some [] else none
]

abbrev or_all : List Char → Option (List Char) → List Char
or_all cs none = cs
or_all cs (some h) = h

abbrev colon_host : List Char → List Char
colon_host cs = or_all cs (before_last 58 cs)

abbrev bracket_host : List Char → List Char
bracket_host [] = []
bracket_host (c ∷ cs) =
    if code c == 91
    then elim (before_close_colon cs) [
      | some h ↦ h
      | none ↦ or_all (colon_host (c ∷ cs)) (before_last 93 cs)
    ]
    else colon_host (c ∷ cs)

unfoldable pub host_only : String → String
host_only addr = of_list (bracket_host (to_list addr))

module _ (net : Net) where
  open net use {parse_ip, to_lower}

  unfoldable pub is_loopback_remote_addr : String → Bool
  is_loopback_remote_addr addr =
      let host = trim_prefix (trim_suffix (trim_dots (host_only addr))) in
      elim (parse_ip host) [
        | some ip ↦ ip.is_loopback || ip.is_unspecified
        | none ↦
            str_eq (to_lower host) "localhost" || str_eq (to_lower host) "localhost.localdomain"
      ]

  unfoldable pub wrap : PprofCfg → HttpReq → Guard
  wrap cfg r =
      if not cfg.enabled
      then hidden
      else if not (str_eq cfg.auth_token "")
      then with_metrics_auth cfg.auth_token r
      else if not (is_loopback_remote_addr r.remote_addr)
      then forbidden
      else passed
