-- ===== src/Tests/Clients.antt =====
-- The clients of the vision models at concrete inputs.
use Prim.Native.String.{◌++◌ as ◌++ₛ◌}
use blind_llm_eyes.Base.{
  pos, ◌≡◌, ◌≢◌, refl, String, str_eq, if◌then◌else◌, true, none, some, [], ◌∷◌,
}
use blind_llm_eyes.Base.Results.{ok, ◌>>=◌, ◌>>◌, reject, or_err}
use blind_llm_eyes.Vision.Pool.{Image, contains}
use blind_llm_eyes.Vision.Clients.{
  Client, Web, responded, unreachable, take_str, truncate, select_timeout, user_content,
  convert_webp_to_png, preprocess, exchange, received,
}
use blind_llm_eyes.Vision.Clients.Mimo.{
  request, text_of, thinking_of, extract, describe_image_internal,
}
use blind_llm_eyes.Vision.Clients.Build.{Network}
use blind_llm_eyes.Tests.Config.{ready}

abbrev client : Client
client = record {
  base_url = "https://vision";
  api_key = "key";
  model = "mimo";
  description_cap = pos 2;
  timeout = pos 30;
  large_timeout = pos 120;
  large_image_threshold = pos 1000;
  supported_formats = "image/png" ∷ [];
}

-- A model that has only thought.
abbrev pub web : Web
web = record {
  Bytes = String;
  Picture = String;
  decode_base64 = λ s. some s;
  decode_webp = λ b. some b;
  encode_png = λ p. some p;
  encode_base64 = λ b. b ++ₛ "AA";
  valid_url = λ u. true;
  send =
      λ r. if str_eq r.url "https://vision/v1/messages" then responded 200 "reply" else unreachable;
  parse_messages = λ s. some (record { typ = "thinking"; text = ""; thinking = "a grey cat" } ∷ []);
  parse_choices = λ s. none;
}

abbrev webp_image : Image
webp_image = record { base64_data = "UklG"; media_type = "image/webp"; image_size = 2000 }

thought : describe_image_internal web client webp_image "why?" ≡ ok "a gr..."
unfolding describe_image_internal preprocess convert_webp_to_png exchange received request
    select_timeout user_content extract text_of thinking_of truncate take_str contains ◌>>=◌ ◌>>◌
    reject or_err
thought = refl

abbrev pub network : Network
network = record {
  web = λ now deadline. web;
  took = λ now deadline image context. 5;
  error_text = λ e. "refused";
}

has_provider : ready.vision_providers ≢ []
has_provider e = cc
