-- ===== src/Tests/Cli.antt =====
-- The subcommands at concrete inputs, over files that are JSON values.
use blind_llm_eyes.Base.{
  ℕ, ◌+◌, ◌<◌, ◌≤◌, ◌≡◌, ◌⊎◌, refl, ap, ℤ, leb, String, Bool, true, false, Option, none, some, List,
  [], ◌∷◌,
}
use blind_llm_eyes.Base.Results.{ok, ◌>>=◌, or_err, and_then}
use blind_llm_eyes.Messages.Validate.{trim_space}
use blind_llm_eyes.Cli.Settings.{
  Disk, Faults, Json, Parsed, entries, written, lookup, assign, wire, connect_settings,
  disconnect_settings,
}
use blind_llm_eyes.Cli.Settings.Restored.{connects, disconnect-connects}
use blind_llm_eyes.Cli.Settings.Wired.{ReadsBack}
use blind_llm_eyes.Cli.CcSwitch
use blind_llm_eyes.Cli.CcSwitch.{CcSwitchProvider, CcDb, CcJson, import_from_cc_switch}
use blind_llm_eyes.Cli.Pidfile.{Remote, PidfileData, pidfile, post_shutdown, do_stop}
use blind_llm_eyes.Cli.Pidfile.Waits.{do_stop_ends}
use blind_llm_eyes.Messages.Validate.{trim_space}
use blind_llm_eyes.Modelutil.{sanitize_model, sanitize, strip_close, split_last_open}
use blind_llm_eyes.Tests.Handler.{net}

mutual
  data Value : Type 0 where
    text : String → Value
    object : Fields → Value

  data Fields : Type 0 where
    end : Fields
    field : String → Value → Fields → Fields

fields_of : List (String × Value) → Fields
fields_of [] = end
fields_of (e ∷ es) = field e.0 e.1 (fields_of es)

list_of : Fields → List (String × Value)
list_of end = []
list_of (field k v fs) = (k, v) ∷ list_of fs

list_of-fields_of : (es : List (String × Value)) → list_of (fields_of es) ≡ es
unfolding list_of fields_of
list_of-fields_of [] = refl
list_of-fields_of (e ∷ es) = ap (λ fs. e ∷ fs) (list_of-fields_of es)

data File : Type 0 where
  no_bytes not_json : File
  document : List (String × Value) → File

abbrev blank_file : File → Bool
blank_file no_bytes = true
blank_file not_json = false
blank_file (document es) = false

abbrev read_document : File → Option (Parsed Value)
read_document no_bytes = none
read_document not_json = none
read_document (document es) = some (entries es)

abbrev read_object : Value → Option (Parsed Value)
read_object (text s) = none
read_object (object fs) = some (entries (list_of fs))

abbrev json : Json File
json = record {
  blank = no_bytes;
  is_blank = blank_file;
  Raw = Value;
  parse_file = read_document;
  parse_raw = read_object;
  raw_map = λ es. object (fields_of es);
  raw_text = text;
  print_file = document;
}

reads_back : ReadsBack json
reads_back = (
  (λ es. (es, refl, λ k. refl)),
  (λ es. (list_of (fields_of es), refl, λ k. ap (lookup k) (list_of-fields_of es))),
)

abbrev calm : Faults File
calm = record {
  read_fails = false;
  backup_write = written;
  mkdir_fails = false;
  temp_write = written;
  rename_fails = false;
  remove_fails = false;
}

abbrev old_settings : File
old_settings = document (("theme", text "dark") ∷ [])

abbrev start : Disk File
start = record { settings = some old_settings; backup = none; temp = none }

disconnect-connects_example :
    let last =
      connects json
        ((calm, "http://127.0.0.1:9999") ∷ [])
        (connect_settings json calm "http://127.0.0.1:8790" start).0 in
    ((disconnect_settings json calm last).1 ≡ ok tt)
    × ((disconnect_settings json calm last).0.settings ≡ some old_settings)
disconnect-connects_example =
    disconnect-connects json calm calm "http://127.0.0.1:8790"
      ((calm, "http://127.0.0.1:9999") ∷ []) start refl refl (refl, refl, refl, refl, refl)

abbrev new_settings : File
new_settings = document (
    ("theme", text "dark")
    ∷ (("env", object (field "ANTHROPIC_BASE_URL" (text "http://127.0.0.1:8790") end)) ∷ []))

wires : wire json "http://127.0.0.1:8790" (some old_settings) ≡ ok new_settings
unfolding wire lookup assign fields_of ◌>>=◌ or_err
wires = refl

-- A row with an address, one that Scan refuses, and one that leads back to the proxy.
abbrev pub cc_json : CcJson
cc_json = record {
  Raw = String;
  parse_top = λ s. some (entries (("env", s) ∷ []));
  parse_env = λ s. some (("ANTHROPIC_BASE_URL", s) ∷ (("ANTHROPIC_MODEL", "glm") ∷ []));
}

abbrev pub db : CcDb
db = record {
  opens = true;
  ping = none;
  copy_reads = true;
  copy_writes = true;
  copy_opens = true;
  copy_ping = some (
      some (record {
        rows = some ("one", "https://upstream") ∷ (none ∷ (some ("own", "127.0.0.1:8790") ∷ []));
        ends_with_error = false;
      }));
}

abbrev pub no_int : String → Option ℤ
no_int s = none

abbrev one : CcSwitchProvider
one = record {
  name = "one";
  base_url = "https://upstream";
  api_key = "";
  model = sanitize_model "glm";
}

imports : import_from_cc_switch net no_int cc_json db "127.0.0.1:8790" ≡ ok (one ∷ [])
unfolding import_from_cc_switch CcSwitch.open_cc_switch_db CcSwitch.import_rows CcSwitch.import_row
    CcSwitch.parse_cc_switch_settings CcSwitch.is_self_referential_url CcSwitch.normalize_host
    CcSwitch.ports_equal trim_space sanitize_model sanitize strip_close split_last_open lookup
    and_then ◌>>=◌ or_err
imports = refl

abbrev remote : Remote
remote = record {
  healthz = λ addr. some 200;
  shutdown = λ addr token. some 202;
  reload = λ addr token. none;
}

abbrev data_of_server : PidfileData
data_of_server = record { pid = 7; addr = "127.0.0.1:8790"; token = "aa"; started_at = 0 }

-- The pidfile goes after three seconds, and each round takes one second more.
do_stop_ends_example :
    ((do_stop remote (λ t. leb 3000 t) (λ t. 1000) 0 (pidfile data_of_server) ≡ some 0)
      × (post_shutdown remote data_of_server ≡ true)
      × (t : ℕ) × (0 ≤ t)
      × (t < 0 + 10000)
      × (leb 3000 t ≡ true))
    ⊎ (do_stop remote (λ t. leb 3000 t) (λ t. 1000) 0 (pidfile data_of_server) ≡ some 1)
do_stop_ends_example = do_stop_ends remote (λ t. leb 3000 t) (λ t. 1000) 0 data_of_server
