-- ===== src/Cli/Probes.antt =====
-- cli/doctor.go: the checks of the doctor on the database and on the models, and what they ask.
pub mod Sound
use blind_llm_eyes.Base.{
  ℕ, zero, suc, String, Bool, true, false, not, ◌&&◌, ◌||◌, Option, none, some, List, [], ◌∷◌,
  str_eq, ltb, leb, if◌then◌else◌, ℤ, pos, negsuc,
}
use Prim.Native.String.{◌++◌ as ◌++ₛ◌}
use blind_llm_eyes.Base.Results.{Result, ok, err, ◌>>=◌, ◌>>◌, reject, or_err}
use blind_llm_eyes.Cache.Sqlite.{Row, Sqlite, select, insert}
use blind_llm_eyes.Cache.Sqlite.Open.{milliseconds, Opening, OpenError, open_sqlite}
use blind_llm_eyes.Config.{ProviderCfg, VisionCfg, Config}
use blind_llm_eyes.Vision.Clients.{Web, Sent, unreachable, unreadable, responded, ClientError}
use blind_llm_eyes.Vision.Pool.{Image}
use blind_llm_eyes.Vision.Clients.Mimo
use blind_llm_eyes.Vision.Clients.Openai
use blind_llm_eyes.Vision.Clients.Build.{
  Provider, mimo, openai, BuildError, build_provider, trim_slashes,
}
use blind_llm_eyes.Vision.Clients.Ping.{PingError, ping}

pub data DoctorResult : Type 0 where
  doctor_pass doctor_warn doctor_fail : DoctorResult

-- The steps of the check of the database: PRAGMA quick_check, and whether the probe can be written and
-- deleted.
pub record DbProbe : Type 0 where
  pub opening : Opening
  pub quick_check : Option String
  pub hash : String
  pub now : ℕ
  pub insert_fails : Bool
  pub delete_fails : Bool

-- What is outside: the services in the first checks, and later; HEAD, which answers or does not; GET
-- with its address and key; the models that an answer lists; the bytes of the test image.
pub record Surroundings : Type 1 where
  pub web : Web
  pub web_later : Web
  pub head : (url api_key : String) → Bool
  pub get : (url api_key : String) → Sent
  pub parse_models : String → Option (List String)
  pub png : String
  pub png_size : Option ℕ
  pub db : DbProbe

abbrev pub is_err : {E A : Type 0} → Result E A → Bool
is_err (ok a) = false
is_err (err e) = true

abbrev test_image : String → ℕ → Image
test_image png size = record { base64_data = png; media_type = "image/png"; image_size = size }

-- DescribeImage of the two clients.
abbrev describe_test : Surroundings → Provider → ℕ → Result ClientError String
describe_test s (mimo c) n = Mimo.describe_image_internal s.web c (test_image s.png n) ""
describe_test s (openai c) n = Openai.describe_image_internal s.web c (test_image s.png n) ""

-- deepCheckVision
unfoldable pub deep_check_vision : Surroundings → Provider → Result ClientError String
deep_check_vision s p = do
  n ← or_err s.png_size ClientError.convert_failed
  desc ← describe_test s p n
  reject (str_eq desc "") ClientError.empty_content
  ok desc

-- DELETE FROM cache WHERE hash = ?
unfoldable pub delete_hash : String → List Row → List Row
delete_hash hash [] = []
delete_hash hash (r ∷ rs) =
    let rest = delete_hash hash rs in if str_eq r.hash hash then rest else r ∷ rest

abbrev pub probe_row : DbProbe → Row
probe_row d = record {
  hash = d.hash;
  description = "doctor-write-probe";
  size_bytes = 18;
  created_at = d.now;
  last_accessed = d.now;
}

-- INSERT OR IGNORE
abbrev pub insert_new : Option Row → Row → List Row → List Row
insert_new none r rows = insert r rows
insert_new (some q) r rows = rows

abbrev pub insert_probe : DbProbe → List Row → List Row
insert_probe d rows = insert_new (select d.hash rows) (probe_row d) rows

-- WriteProbe: whether it succeeds, and the rows behind it.
unfoldable pub write_probe : DbProbe → List Row → Bool × List Row
write_probe d rows =
    if d.insert_fails
    then (false, rows)
    else if d.delete_fails
    then (false, insert_probe d rows)
    else (true, delete_hash d.hash (insert_probe d rows))

abbrev pub is_ok_text : Option String → Bool
is_ok_text none = false
is_ok_text (some t) = str_eq t "ok"

abbrev pub probe_result : Bool × List Row → DoctorResult × List Row
probe_result w = (if w.0 then doctor_pass else doctor_fail, w.1)

abbrev pub or_ten_thousand : ℤ → ℕ
or_ten_thousand (pos zero) = 10000
or_ten_thousand (pos (suc n)) = suc n
or_ten_thousand (negsuc n) = 10000

abbrev pub opened_result : DbProbe → List Row → Result OpenError Sqlite → DoctorResult × List Row
opened_result d rows (err e) = (doctor_fail, rows)
opened_result d rows (ok s) =
    if not (is_ok_text d.quick_check)
    then (doctor_fail, s.rows)
    else probe_result (write_probe d s.rows)

-- The file is at db_path, and holds `rows`. An error of the opening leaves the rows as they were here.
unfoldable pub run_doctor_check_db_writable :
    {Float : Type 0} → DbProbe → Config Float → List Row → DoctorResult × List Row
run_doctor_check_db_writable d c rows =
    if not (str_eq c.cache.kind "twotier")
    then (doctor_pass, rows)
    else opened_result d rows (
        open_sqlite d.opening c.cache.db_path (or_ten_thousand c.cache.sqlite_max_entries)
          (milliseconds c.cache.sqlite_ttl) rows)

-- A provider of the old single form.
unfoldable pub legacy_provider : VisionCfg → ProviderCfg
legacy_provider v = record {
  name = "legacy";
  kind = "mimo";
  priority = pos 0;
  base_url = v.base_url;
  api_key = v.api_key;
  model = v.model;
  timeout_str = "";
  timeout = v.timeout;
  large_timeout_str = "";
  large_timeout = pos 0;
  large_image_threshold = pos 0;
  description_cap = pos 0;
  supported_formats = [];
  circuit_breaker = record {
    failure_threshold = pos 0;
    reset_timeout_str = "";
    reset_timeout = pos 0;
  };
}

abbrev with_url : List ProviderCfg → List ProviderCfg
with_url [] = []
with_url (p ∷ ps) = if str_eq p.base_url "" then with_url ps else p ∷ with_url ps

unfoldable pub doctor_provider_list : {Float : Type 0} → Config Float → List ProviderCfg
doctor_provider_list c = elim c.vision_providers [
  | p ∷ ps ↦ with_url (p ∷ ps)
  | [] ↦ if str_eq c.vision.base_url "" then [] else legacy_provider c.vision ∷ []
]

unfoldable pub contains_model : List String → String → Bool
contains_model [] model = false
contains_model (m ∷ ms) model = str_eq m model || contains_model ms model

abbrev full_ids : List String → List String
full_ids [] = []
full_ids (m ∷ ms) = if str_eq m "" then full_ids ms else m ∷ full_ids ms

abbrev pub worse : DoctorResult → DoctorResult → DoctorResult
worse doctor_fail r = doctor_fail
worse r doctor_pass = r
worse r doctor_warn = doctor_warn
worse r doctor_fail = doctor_fail

abbrev pub failing : DoctorResult → Bool
failing doctor_fail = true
failing doctor_pass = false
failing doctor_warn = false

module _ (s : Surroundings) where
  -- The models with an id, of an answer with a status from 200 to 299.
  unfoldable pub list_models_http : (base_url api_key : String) → Option (List String)
  list_models_http base_url api_key =
      elim (s.get (trim_slashes base_url ++ₛ "/v1/models") api_key) [
        | unreachable ↦ none
        | unreadable status ↦ none
        | responded status body ↦
            if ltb status 200 || leb 300 status
            then none
            else elim (s.parse_models body) [ none ↦ none | some ids ↦ some (full_ids ids) ]
      ]

  abbrev pub listed : ProviderCfg → Option (List String) → DoctorResult
  listed p none = doctor_warn
  listed p (some ids) =
      if not (str_eq p.model "") && not (contains_model ids p.model)
      then doctor_warn
      else doctor_pass

  abbrev pub behind_ping : ProviderCfg → Result PingError (Unit {0}) → DoctorResult
  behind_ping p (ok u) = listed p (list_models_http p.base_url p.api_key)
  behind_ping p (err e) = doctor_fail

  abbrev pub behind_build : ProviderCfg → Result BuildError Provider → DoctorResult
  behind_build p (ok b) = behind_ping p (ping s.web_later 5000000000 b)
  behind_build p (err e) = doctor_fail

  -- The body of the loop, for one provider.
  unfoldable pub check_model : ProviderCfg → DoctorResult
  check_model p = behind_build p (build_provider p)

  unfoldable pub worst_of : DoctorResult → List ProviderCfg → DoctorResult
  worst_of worst [] = worst
  worst_of worst (p ∷ ps) = worst_of (worse worst (check_model p)) ps

  unfoldable pub run_doctor_check_vision_model_exists :
      {Float : Type 0} → Config Float → DoctorResult
  run_doctor_check_vision_model_exists c = worst_of doctor_pass (doctor_provider_list c)
