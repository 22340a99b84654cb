-- ===== src/Tests/Messages.antt =====
-- The messages, the model names and the LRU at concrete inputs.
use Prim.Native.Char.{Char, char}
use blind_llm_eyes.Base.{◌≡◌, ◌↔◌, refl, String, pos, false, some, none, List, [], ◌∷◌, arith}
use blind_llm_eyes.Messages.Content.{Node, block, nil, cons, Message, Request, append_blocks}
use blind_llm_eyes.Messages.Rewrite.{normalize_system_messages}
use blind_llm_eyes.Messages.Validate.{
  valid_media_type, trim_space, validate, validate_messages, validate_message, validate_blocks,
  validate_block, validate_image, validate_source, valid_role, bad_role, bad_message,
}
use blind_llm_eyes.Messages.Accepted.{RequestOk, validate_iff}
use blind_llm_eyes.Messages.Normalized.{system_content, others, count_system, normalize_lem}
use blind_llm_eyes.Modelutil.{contains_bracket}
use blind_llm_eyes.Cache.Lru.{Lru, put}
use blind_llm_eyes.Cache.Lru.Bounds.{IsValid, count_key}
use blind_llm_eyes.Cache.Lru.Valid.{put-IsValid}

abbrev pub picture : Node
picture = record {
  raw = none;
  typ = "image";
  text = "";
  source = some (record { typ = "base64"; media_type = "image/png"; base64_data = "AAAA" });
  is_error = false;
}

abbrev pub words : String → Node
words t = record { raw = none; typ = "text"; text = t; source = none; is_error = false }

abbrev pub question : Message
question = record {
  role = "user";
  content = cons (block (words "what is this?") nil) (cons (block picture nil) nil);
}

abbrev pub rules : Message
rules = record { role = "system"; content = cons (block (words "be short") nil) nil }

abbrev tool : Message
tool = record { role = "tool"; content = cons (block (words "42") nil) nil }

abbrev pub request : List Message → Request
request ms = record {
  model = "deepseek-v4";
  messages = ms;
  max_tokens = pos 100;
  system = nil;
  stream = false;
}

validate_iff_example :
    validate (request (question ∷ [])) ≡ none ↔ RequestOk (request (question ∷ []))
validate_iff_example = validate_iff (request (question ∷ []))

refused_request : validate (request (question ∷ (tool ∷ []))) ≡ some (bad_message 1 bad_role)
unfolding validate validate_messages validate_message validate_blocks validate_block validate_image
    validate_source valid_role valid_media_type trim_space
refused_request = refl

normalize_lem_example : normalize_system_messages (request (rules ∷ (question ∷ []))) ≡ (
  record (request (rules ∷ (question ∷ []))) {
    system = append_blocks nil (system_content (rules ∷ (question ∷ [])));
    messages = others (rules ∷ (question ∷ []));
  },
  count_system (rules ∷ (question ∷ [])),
)
normalize_lem_example = normalize_lem (request (rules ∷ (question ∷ [])))

abbrev pub letter_m : Char
letter_m = char 109 tt

abbrev bracket_open : Char
bracket_open = char 91 tt

abbrev bracket_close : Char
bracket_close = char 93 tt

plain_inner : contains_bracket (letter_m ∷ []) ≡ false
unfolding contains_bracket
plain_inner = refl

abbrev suffixed : List Char
suffixed = letter_m ∷ (bracket_open ∷ (letter_m ∷ (bracket_close ∷ [])))

abbrev small_cache : Lru
small_cache = record { cap = 1; ll = record { key = "k"; value = "a cat" } ∷ [] }

small_cache-IsValid : IsValid small_cache
unfolding count_key
small_cache-IsValid = (omega arith, λ k. ground arith)

put-IsValid_example : IsValid (put "l" "a dog" small_cache)
put-IsValid_example = put-IsValid "l" "a dog" small_cache small_cache-IsValid
