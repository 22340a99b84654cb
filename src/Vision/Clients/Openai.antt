-- ===== src/Vision/Clients/Openai.antt =====
-- vision/openai_client.go: the client of an OpenAI-compatible Chat Completions API.
use Prim.Native.String.{◌++◌ as ◌++ₛ◌}
use blind_llm_eyes.Base.{false, ℕ, String, str_eq, not, none, List, [], ◌∷◌}
use blind_llm_eyes.Base.Results.{Result, ok, err, ◌>>=◌, ◌>>◌, reject, or_err}
use blind_llm_eyes.Vision.Pool.{Image}
use blind_llm_eyes.Vision.Clients.{
  Client, HttpRequest, Web, ClientError, image_url_part, parts, plain, select_timeout,
  system_prompt, user_content, is_configured, preprocess, exchange, not_configured, bad_reply,
  no_content, empty_content,
}

-- fmt.Sprintf("data:%s;base64,%s", actualMediaType, actualData)
abbrev pub data_url : Image → String
data_url i = "data:" ++ₛ (i.media_type ++ₛ (";base64," ++ₛ i.base64_data))

unfoldable pub request : Client → Image → ℕ → String → HttpRequest
request c actual image_size context = record {
  url = c.base_url ++ₛ "/chat/completions";
  authorization = "Bearer " ++ₛ c.api_key;
  timeout = select_timeout c image_size;
  body = record {
    model = c.model;
    system = none;
    messages =
        record { role = "system"; content = plain system_prompt }
        ∷ (record {
          role = "user";
          content = parts (user_content context (image_url_part (data_url actual)));
        }
            ∷ []);
    max_tokens = c.description_cap;
    thinking_disabled = false;
  };
}

-- The content of the first choice.
unfoldable pub first_choice : List String → Result ClientError String
first_choice [] = err no_content
first_choice (content ∷ choices) = reject (str_eq content "") empty_content >> ok content

module _ (web : Web) where
  open web use {parse_choices}

  unfoldable pub describe_image_internal : Client → Image → String → Result ClientError String
  describe_image_internal c image context = do
    reject (not (is_configured c)) not_configured
    actual ← preprocess web c image
    body ← exchange web (request c actual image.image_size context)
    choices ← or_err (parse_choices body) bad_reply
    first_choice choices
