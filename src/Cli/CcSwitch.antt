-- ===== src/Cli/CcSwitch.antt =====
-- cli/ccswitch.go: the import of providers from the database of cc-switch, and the test of an address
-- against the proxy's own. What the database and package encoding/json answer stands in two records.
pub mod Imported
use blind_llm_eyes.Base.{
  ℤ, pos, negsuc, ◌==◌, String, str_eq, Bool, true, false, not, ◌&&◌, ◌||◌, if◌then◌else◌, Option,
  none, some, List, [], ◌∷◌,
}
use blind_llm_eyes.Base.Results.{Result, ok, err, ◌>>=◌, or_err, and_then}
use blind_llm_eyes.Messages.Validate.{trim_space}
use blind_llm_eyes.Modelutil.{sanitize_model}
use blind_llm_eyes.Proxy.Hosts.{Net, default_port, trim_dots}
use blind_llm_eyes.Cli.Settings.{Parsed, nil_map, entries, lookup}

pub record CcSwitchProvider : Type 0 where
  pub name : String
  pub base_url : String
  pub api_key : String
  pub model : String

-- A row of the query, or one that rows.Scan refuses.
abbrev pub ScannedRow : Type 0
ScannedRow = Option (String × String)

-- What each attempt to open a database gives: the rows for Claude and whether rows.Err is set.
pub record Query : Type 0 where
  pub rows : List ScannedRow
  pub ends_with_error : Bool

-- `none` is a Ping that fails for the two databases, and a failing Query behind it.
pub record CcDb : Type 0 where
  pub opens : Bool
  pub ping : Option (Option Query)
  pub copy_reads : Bool
  pub copy_writes : Bool
  pub copy_opens : Bool
  pub copy_ping : Option (Option Query)

pub data CcError : Type 0 where
  open_failed copy_failed query_failed : CcError
  rows_failed : List CcSwitchProvider → CcError

pub record CcJson : Type 1 where
  pub Raw : Type 0
  pub parse_top : String → Option (Parsed Raw)
  -- a map[string]string, which is empty for null
  pub parse_env : Raw → Option (List (String × String))

abbrev copy_and_open_db : CcDb → Result CcError (Option Query)
copy_and_open_db db =
    if db.copy_reads && db.copy_writes && db.copy_opens
    then or_err db.copy_ping copy_failed
    else err copy_failed

unfoldable pub open_cc_switch_db : CcDb → Result CcError (Option Query)
open_cc_switch_db db =
    if db.opens
    then elim db.ping [ some q ↦ ok q | none ↦ copy_and_open_db db ]
    else err open_failed

-- m[k] of a map[string]string
abbrev pub text_at : String → List (String × String) → String
text_at k es = elim (lookup k es) [ some v ↦ v | none ↦ "" ]

abbrev first_text : String → String → String
first_text a b = if str_eq a "" then b else a

abbrev pub provider_of : String → List (String × String) → Option CcSwitchProvider
provider_of name env =
    if str_eq (text_at "ANTHROPIC_BASE_URL" env) ""
    then none
    else some (record {
      name = name;
      base_url = text_at "ANTHROPIC_BASE_URL" env;
      api_key = first_text (text_at "ANTHROPIC_API_KEY" env) (text_at "ANTHROPIC_AUTH_TOKEN" env);
      model = sanitize_model (text_at "ANTHROPIC_MODEL" env);
    })

abbrev same_int : ℤ → ℤ → Bool
same_int (pos a) (pos b) = a == b
same_int (negsuc a) (negsuc b) = a == b
same_int (pos a) (negsuc b) = false
same_int (negsuc a) (pos b) = false

abbrev pub add_provider : Option CcSwitchProvider → List CcSwitchProvider → List CcSwitchProvider
add_provider none ps = ps
add_provider (some p) ps = p ∷ ps

-- strconv.Atoi of both, or the texts themselves
unfoldable pub ports_equal : (atoi : String → Option ℤ) → String → String → Bool
ports_equal atoi a b = elim (atoi a) [
  | none ↦ str_eq a b
  | some m ↦ elim (atoi b) [ none ↦ str_eq a b | some n ↦ same_int m n ]
]

module _ (net : Net) (atoi : String → Option ℤ) where
  open net use {parse_url, split_host_port, to_lower}

  unfoldable pub normalize_host : String → String
  normalize_host host =
      let h = trim_dots (to_lower (trim_space host)) in
      if str_eq h "localhost"
        || str_eq h "127.0.0.1"
        || str_eq h "0.0.0.0"
        || str_eq h "::1"
        || str_eq h "::"
      then "127.0.0.1"
      else h

  abbrev own_endpoint : String × String → String × String → Bool
  own_endpoint u p = str_eq (normalize_host u.0) (normalize_host p.0) && ports_equal atoi u.1 p.1

  unfoldable pub is_self_referential_url : String → String → Bool
  is_self_referential_url url listen =
      if str_eq url "" || str_eq listen "" then false else elim (parse_url url) [
        | none ↦ false
        | some u ↦ if str_eq u.host "" then false else elim (split_host_port listen) [
          | none ↦ false
          | some p ↦ elim (split_host_port u.host) [
            | some hp ↦ own_endpoint hp p
            | none ↦ own_endpoint (u.host, default_port u.scheme) p
          ]
        ]
      ]

  module _ (json : CcJson) where
    open json use {Raw, parse_top, parse_env}

    abbrev env_raw : Parsed Raw → Option Raw
    env_raw nil_map = none
    env_raw (entries es) = lookup "env" es

    unfoldable pub parse_cc_switch_settings : String → String → Option CcSwitchProvider
    parse_cc_switch_settings name settings =
        and_then (parse_top settings)
          (λ top. and_then (env_raw top) (λ raw. and_then (parse_env raw) (provider_of name)))

    -- The body of the loop: the provider of a row, unless it leads back to the proxy.
    unfoldable pub import_row : String → ScannedRow → Option CcSwitchProvider
    import_row listen none = none
    import_row listen (some row) = and_then (parse_cc_switch_settings row.0 row.1) (λ p.
        if not (str_eq listen "") && is_self_referential_url p.base_url listen
        then none
        else some p)

    unfoldable pub import_rows : String → List ScannedRow → List CcSwitchProvider
    import_rows listen [] = []
    import_rows listen (r ∷ rs) = add_provider (import_row listen r) (import_rows listen rs)

    abbrev pub rows_result : Bool → List CcSwitchProvider → Result CcError (List CcSwitchProvider)
    rows_result true ps = err (rows_failed ps)
    rows_result false ps = ok ps

    unfoldable pub import_from_cc_switch : CcDb → String → Result CcError (List CcSwitchProvider)
    import_from_cc_switch db listen = do
      opened ← open_cc_switch_db db
      q ← or_err opened query_failed
      rows_result q.ends_with_error (import_rows listen q.rows)
