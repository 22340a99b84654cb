-- ===== src/Tests/Answers.antt =====
-- A pool of one service that answers.
use blind_llm_eyes.Base.{◌≡◌, refl, some, List, [], ◌∷◌}
use blind_llm_eyes.Base.Results.{Result, ok, err, ◌>>=◌, ◌>>◌, reject, or_err}
use blind_llm_eyes.Vision.Breaker.{allow, new_circuit_breaker}
use blind_llm_eyes.Vision.Pool
use blind_llm_eyes.Vision.Pool.{
  Image, Member, pool_described, new_pool, check_entries, contains, visit, call_provider,
}
use blind_llm_eyes.Vision.Clients.{
  responded, select_timeout, user_content, preprocess, exchange, received,
}
use blind_llm_eyes.Vision.Clients.Openai
use blind_llm_eyes.Vision.Clients.Build.{
  BuildError, Network, build_pool, build_entries, entry_of, build_provider, trim_slashes, describe,
  as_provider,
}
use blind_llm_eyes.Vision.Clients.Build.Answers.{Gave, build_pool_answers}
use blind_llm_eyes.Tests.Config.{ready}
use blind_llm_eyes.Tests.Clients.{web}

abbrev answering : Network
answering = record {
  web = λ now deadline. record web {
    send = λ r. responded 200 "reply";
    parse_choices = λ s. some ("a cat" ∷ []);
  };
  took = λ now deadline image context. 5;
  error_text = λ e. "refused";
}

abbrev or_nil : Result BuildError (List Member) → List Member
or_nil (ok ms) = ms
or_nil (err e) = []

abbrev glm_pool : List Member
glm_pool = or_nil (build_pool answering ready.vision_providers)

abbrev png_image : Image
png_image = record { base64_data = "iVBO"; media_type = "image/png"; image_size = 4 }

glm_built : build_pool answering ready.vision_providers ≡ ok glm_pool
unfolding build_pool build_entries entry_of build_provider trim_slashes new_pool check_entries
    contains ◌>>=◌ ◌>>◌ reject
glm_built = refl

glm_answers : (Pool.describe_image_internal 7 png_image "why?" glm_pool).1 ≡ pool_described "a cat"
unfolding build_pool build_entries entry_of build_provider trim_slashes new_pool check_entries
    contains ◌>>=◌ ◌>>◌ reject Pool.describe_image_internal visit call_provider as_provider describe
    allow new_circuit_breaker Openai.describe_image_internal Openai.request Openai.first_choice
    preprocess exchange received or_err select_timeout user_content Pool.sort_members
    Pool.insert_member Pool.member
glm_answers = refl

build_pool_answers_example :
    Gave answering ready.vision_providers png_image "why?" 7
      (Pool.describe_image_internal 7 png_image "why?" glm_pool).0.walk.now
      "a cat"
build_pool_answers_example =
    build_pool_answers answering ready.vision_providers glm_pool 7 png_image "why?" "a cat"
      glm_built glm_answers
