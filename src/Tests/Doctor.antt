-- ===== src/Tests/Doctor.antt =====
-- The doctor at services that answer, and at a corrupt database.
use blind_llm_eyes.Base.{◌≡◌, refl, ◌↔◌, true, false, none, some, List, [], ◌∷◌}
use blind_llm_eyes.Base.Results.{ok, ◌>>◌, reject}
use blind_llm_eyes.Cache.Sqlite.{Row}
use blind_llm_eyes.Cache.Sqlite.Open.{Rebuild, Opening, open_failure}
use blind_llm_eyes.Config.{Config}
use blind_llm_eyes.Config.Whole.{load}
use blind_llm_eyes.Cli.Probes.{doctor_pass, DbProbe, Surroundings, run_doctor_check_db_writable}
use blind_llm_eyes.Cli.Probes.Sound.{corrupt_db_passes}
use blind_llm_eyes.Cli.Doctor.{run_doctor}
use blind_llm_eyes.Cli.Doctor.Healthy.{IsHealthy, run_doctor_iff}
use blind_llm_eyes.Vision.Clients.{Web, responded}
use blind_llm_eyes.Tests.Fractions.{fractions, Fraction}
use blind_llm_eyes.Tests.Config.{ready, parsed, outside}
use blind_llm_eyes.Tests.Clients.{web}
use blind_llm_eyes.Tests.Handler.{net}

abbrev friendly : Web
friendly = record web {
  send = λ r. responded 200 "reply";
  parse_choices = λ s. some ("a dot" ∷ []);
}

abbrev works : Rebuild
works = record { remove_fails = false; reopen_fails = false; pragma_fails = false }

abbrev pub corrupt : Opening
corrupt = record {
  dir = λ path. ".";
  create_dir_fails = λ d. false;
  open_fails = λ path. false;
  pragma_fails = false;
  first_rebuild = works;
  integrity_check = some "row 7 missing from index";
  second_rebuild = works;
  create_fails = false;
  count_fails = false;
}

abbrev probe : DbProbe
probe = record {
  opening = corrupt;
  quick_check = some "ok";
  hash = "doctor_write_probe_1_2";
  now = 5;
  insert_fails = false;
  delete_fails = false;
}

abbrev at_home : Surroundings
at_home = record {
  web = friendly;
  web_later = friendly;
  head = λ url api_key. true;
  get = λ url api_key. responded 404 "no list";
  parse_models = λ body. none;
  png = "iVBO";
  png_size = some 67;
  db = probe;
}

abbrev stored : List Row
stored =
    record { hash = "h"; description = "a cat"; size_bytes = 5; created_at = 1; last_accessed = 1 }
    ∷ []

run_doctor_iff_example :
    (run_doctor fractions at_home net
        (λ s. none)
        (outside parsed)
        (some ("config.yaml", "deepseek-chat", true))
        stored
      ≡ some 0)
    ↔ ((c : Config Fraction) × (load fractions (outside parsed) "config.yaml" ≡ ok c)
        × IsHealthy c at_home net (λ s. none) "deepseek-chat" true stored)
run_doctor_iff_example =
    run_doctor_iff fractions at_home net (λ s. none) (outside parsed) "config.yaml" "deepseek-chat"
      true stored

abbrev pub two_tiers : Config Fraction
two_tiers = record ready { cache = record ready.cache { kind = "twotier" } }

can_open : open_failure corrupt "./cache.db" ≡ ok tt
unfolding open_failure ◌>>◌ reject
can_open = refl

corrupt_db_passes_example : run_doctor_check_db_writable probe two_tiers stored ≡ (doctor_pass, [])
corrupt_db_passes_example =
    corrupt_db_passes probe two_tiers stored refl can_open refl refl (refl, refl) refl refl refl
      refl refl refl
