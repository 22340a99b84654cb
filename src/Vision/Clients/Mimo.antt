-- ===== src/Vision/Clients/Mimo.antt =====
-- vision/client.go: the client of an Anthropic Messages API.
pub mod Answers
use Prim.Native.String.{◌++◌ as ◌++ₛ◌}
use blind_llm_eyes.Base.{
  true, ℕ, ◌+◌, ◌*◌, ℤ, pos, negsuc, String, str_eq, not, ◌&&◌, if◌then◌else◌, some, List, [], ◌∷◌,
}
use blind_llm_eyes.Base.Results.{Result, ok, err, ◌>>=◌, ◌>>◌, reject, or_err}
use blind_llm_eyes.Vision.Pool.{Image}
use blind_llm_eyes.Vision.Clients.{
  Client, HttpRequest, ReplyBlock, Web, ClientError, image_part, parts, select_timeout,
  system_prompt, user_content, truncate, is_configured, preprocess, exchange, not_configured,
  bad_reply, no_content, empty_content, panicked,
}

unfoldable pub request : Client → Image → ℕ → String → HttpRequest
request c actual image_size context = record {
  url = c.base_url ++ₛ "/v1/messages";
  authorization = "Bearer " ++ₛ c.api_key;
  timeout = select_timeout c image_size;
  body = record {
    model = c.model;
    system = some system_prompt;
    messages =
        record {
          role = "user";
          content = parts (user_content context (image_part actual.media_type actual.base64_data));
        }
        ∷ [];
    max_tokens = c.description_cap;
    thinking_disabled = true;
  };
}

-- content += block.Text
unfoldable pub text_of : List ReplyBlock → String
text_of [] = ""
text_of (b ∷ bs) = (if str_eq b.typ "text" then b.text else "") ++ₛ text_of bs

unfoldable pub thinking_of : List ReplyBlock → String
thinking_of [] = ""
thinking_of (b ∷ bs) = (if str_eq b.typ "thinking" then b.thinking else "") ++ₛ thinking_of bs

abbrev pub twice : ℤ → ℤ
twice (pos n) = pos (n * 2)
twice (negsuc n) = negsuc (n * 2 + 1)

-- The text of the blocks, and else the start of what the model thought.
abbrev pub or_thinking : ℤ → String → String → Result ClientError String
or_thinking cap text thinking =
    if str_eq text "" && not (str_eq thinking "")
    then or_err (truncate thinking (twice cap)) panicked
    else ok text

unfoldable pub extract : ℤ → List ReplyBlock → Result ClientError String
extract cap [] = err no_content
extract cap (b ∷ bs) = do
  content ← or_thinking cap (text_of (b ∷ bs)) (thinking_of (b ∷ bs))
  reject (str_eq content "") empty_content
  ok content

module _ (web : Web) where
  open web use {parse_messages}

  -- describeImageInternal, for DescribeImage with no context and for DescribeImageWithContext.
  unfoldable pub describe_image_internal : Client → Image → String → Result ClientError String
  describe_image_internal c image context = do
    reject (not (is_configured c)) not_configured
    actual ← preprocess web c image
    body ← exchange web (request c actual image.image_size context)
    blocks ← or_err (parse_messages body) bad_reply
    extract c.description_cap blocks
