-- ===== src/Vision/Clients.antt =====
-- vision/client.go, vision/openai_client.go: what the two clients share. The image libraries, net/http
-- and encoding/json answer through the record Web. A text has one character for each byte, as a Go
-- string does, and lengths are Go's len.
pub mod Mimo
pub mod Openai
pub mod Build
pub mod Ping
use Prim.Native.String.{[] as empty, ◌∷◌ as ◌∷ₛ◌, ◌++◌ as ◌++ₛ◌}
use blind_llm_eyes.Base.{
  ℕ, zero, suc, ℤ, pos, negsuc, ltb_ℤ, leb, String, str_eq, Bool, true, not, ◌&&◌, ◌||◌,
  if◌then◌else◌, Option, none, some, List, [], ◌∷◌, ◌++◌,
}
use blind_llm_eyes.Base.Results.{Result, ok, err, ◌>>=◌, ◌>>◌, reject, or_err}
use blind_llm_eyes.Vision.Pool.{contains, Image}

-- Client, and OpenAIClient with the same fields. SupportedFormats is a set.
pub record Client : Type 0 where
  pub base_url : String
  pub api_key : String
  pub model : String
  pub description_cap : ℤ
  pub timeout : ℤ
  pub large_timeout : ℤ
  pub large_image_threshold : ℤ
  pub supported_formats : List String

pub data Part : Type 0 where
  text_part : String → Part
  image_part : (media_type base64_data : String) → Part
  image_url_part : String → Part

pub data ChatContent : Type 0 where
  plain : String → ChatContent
  parts : List Part → ChatContent

pub record ChatMessage : Type 0 where
  pub role : String
  pub content : ChatContent

-- The body of a request; the key system stands there for one of the two services only, and so does
-- thinking with the type disabled. The temperature of the other, a constant, is left out.
pub record Payload : Type 0 where
  pub model : String
  pub system : Option String
  pub messages : List ChatMessage
  pub max_tokens : ℤ
  pub thinking_disabled : Bool

pub record HttpRequest : Type 0 where
  pub url : String
  pub authorization : String
  pub timeout : ℤ
  pub body : Payload

pub data Sent : Type 0 where
  unreachable : Sent
  unreadable : (status : ℕ) → Sent
  responded : (status : ℕ) → (body : String) → Sent

pub record ReplyBlock : Type 0 where
  pub typ : String
  pub text : String
  pub thinking : String

-- base64.StdEncoding, webp.Decode and png.Encode; http.NewRequest, which refuses some addresses;
-- http.Client.Do with io.ReadAll; json.Unmarshal of the two kinds of reply.
pub record Web : Type 1 where
  pub Bytes : Type 0
  pub Picture : Type 0
  pub decode_base64 : String → Option Bytes
  pub decode_webp : Bytes → Option Picture
  pub encode_png : Picture → Option Bytes
  pub encode_base64 : Bytes → String
  pub valid_url : String → Bool
  pub send : HttpRequest → Sent
  pub parse_messages : String → Option (List ReplyBlock)
  pub parse_choices : String → Option (List String)

pub data ClientError : Type 0 where
  not_configured convert_failed request_build_failed http_failed read_failed bad_reply no_content
        empty_content panicked :
      ClientError
  unsupported_media_type : String → ClientError
  api_error : ℕ → String → ClientError

abbrev length_str : String → ℕ
length_str empty = 0
length_str (c ∷ₛ s) = suc (length_str s)

unfoldable pub take_str : ℕ → String → String
take_str zero s = ""
take_str (suc n) empty = ""
take_str (suc n) (c ∷ₛ s) = c ∷ₛ take_str n s

-- A negative bound makes the slice expression panic, which is `none`.
unfoldable pub truncate : String → ℤ → Option String
truncate s (pos n) = some (if leb (length_str s) n then s else take_str n s ++ₛ "...")
truncate s (negsuc n) = none

unfoldable pub select_timeout : Client → ℕ → ℤ
select_timeout c image_size =
    if not (ltb_ℤ (pos image_size) c.large_image_threshold) && ltb_ℤ (pos 0) c.large_timeout
    then c.large_timeout
    else c.timeout

abbrev pub is_configured : Client → Bool
is_configured c = not (str_eq c.base_url "" || str_eq c.api_key "" || str_eq c.model "")

abbrev pub accepts : List String → String → Bool
accepts [] media_type = true
accepts (f ∷ fs) media_type = contains media_type (f ∷ fs)

abbrev pub system_prompt : String
system_prompt =
    "You are a visual description assistant. Describe the provided image in detail in Chinese. Focus on objects, layout, colors, text visible in the image, and any code snippets or UI elements. Keep the description under 400 words but be precise."

abbrev context_heading : String
context_heading = "对话上下文（请结合以下对话内容更精准地描述图片，聚焦与上下文相关的细节，尤其是报错信息和代码片段）：\n"

abbrev instruction : String → String
instruction context =
    if str_eq context ""
    then "Describe this image in detail."
    else "Describe this image in detail, focusing on details relevant to the conversation context provided above (especially error messages, code snippets, and UI elements mentioned in the context)."

-- The context if there is one, the image, and the instruction.
unfoldable pub user_content : String → Part → List Part
user_content context image =
    (if str_eq context "" then [] else text_part (context_heading ++ₛ context) ∷ [])
    ++ (image ∷ (text_part (instruction context) ∷ []))

-- An answer with a status of 400 and above is an error that shows the start of its body.
unfoldable pub received : Sent → Result ClientError String
received unreachable = err http_failed
received (unreadable status) = err read_failed
received (responded status body) =
    if leb 400 status
    then (or_err (truncate body (pos 500)) panicked >>= λ p. err (api_error status p))
    else ok body

module _ (web : Web) where
  open web use {
    decode_base64, decode_webp, encode_png, encode_base64, valid_url, send, parse_messages,
    parse_choices,
  }

  unfoldable pub convert_webp_to_png : String → Result ClientError String
  convert_webp_to_png base64_data = do
    raw ← or_err (decode_base64 base64_data) convert_failed
    img ← or_err (decode_webp raw) convert_failed
    png ← or_err (encode_png img) convert_failed
    ok (encode_base64 png)

  abbrev converted : Image → Result ClientError Image
  converted image =
      if str_eq image.media_type "image/webp"
      then (convert_webp_to_png image.base64_data >>= λ d.
          ok (record image { base64_data = d; media_type = "image/png" }))
      else ok image

  -- The image as it is sent: a WebP image as a PNG image, of a type that is supported then.
  unfoldable pub preprocess : Client → Image → Result ClientError Image
  preprocess c image = do
    actual ← converted image
    reject (not (accepts c.supported_formats actual.media_type))
        (unsupported_media_type image.media_type)
    ok actual

  -- http.NewRequest, Do, io.ReadAll and the test of the status: the body of a good answer.
  unfoldable pub exchange : HttpRequest → Result ClientError String
  exchange r = reject (not (valid_url r.url)) request_build_failed >> received (send r)
