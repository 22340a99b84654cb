-- ===== src/Tests/Handler.antt =====
-- The handler of the messages at a concrete world: a cache of two entries, an upstream that answers
-- 200, and a vision model that describes every image as a cat.
use mathlib.Core.List.{Permᴰ}
use mathlib.Core.List.Permᴰ
use blind_llm_eyes.Base.{
  List, String, [], ap, arith, false, if◌then◌else◌, inl, inr, length, map, none, not, pos, refl,
  some, str_eq, subst, sym, true, ℕ, ◌&&◌, ◌<◌, ◌↔◌, ◌∷◌, ◌≡◌,
}
use blind_llm_eyes.Cache.Lru.{Lru, find, get}
use blind_llm_eyes.Cache.Lru.Valid.{lru_cache}
use blind_llm_eyes.Messages.Content.{
  Request, RequestPtr, collect_block, find_image_blocks, first, head, is_image, is_tool_result,
  next, self, update_at,
}
use blind_llm_eyes.Messages.Rewrite.{normalize_loop, normalize_system_messages, replace_image}
use blind_llm_eyes.Messages.Validate.{
  trim_space, valid_media_type, valid_role, validate, validate_block, validate_blocks,
  validate_image, validate_message, validate_messages, validate_source,
}
use blind_llm_eyes.Proxy.Hosts.{Net, is_self_referential_url, normalize_host}
use blind_llm_eyes.Proxy.Images.{Flight, Task, Work, process_image, process_images, vision_call}
use blind_llm_eyes.Proxy.Handler.{
  Deps, HttpRequest, Prepared, World, body, contains, handle_messages, loops, postfix, prepare,
  refused, responded, do_failed, rewrite_images, start_work, vision_loops,
}
use blind_llm_eyes.Proxy.Handler.Outcomes.{Schedules, prepared_holds_no_image}
use blind_llm_eyes.Proxy.Handler.FailOpen.{fail_open_goes_on}
use blind_llm_eyes.Tests.Messages.{letter_m, question, request}
use text.Mathlib.TextBridge.{of_list, to_list-of_list}
use Prim.Native.String.{◌++◌ as append}
use blind_llm_eyes.Messages.Accepted.{RequestOk}
use blind_llm_eyes.Modelutil.{sanitize, sanitize_model, strip_close}
use blind_llm_eyes.Proxy.Headers.{
  Header, IsMap, has_key, should_strip_header, upstream_headers, values,
}
use blind_llm_eyes.Proxy.Headers.Forwarded.{values-upstream_headers}
use blind_llm_eyes.Proxy.Hosts.Loops.{IsOwn, self_referential_iff}
use blind_llm_eyes.Proxy.Images.Counts.{
  Answered, Counted, fail_closed_needs_answers, process_images-Counted,
}
use blind_llm_eyes.Proxy.Images.Replaced.{images_replaced}
use blind_llm_eyes.Proxy.Handler.Ways.{loop_is_refused}
use blind_llm_eyes.Proxy.Handler.Verbatim.{relays, unchanged_verbatim}
use blind_llm_eyes.Config.Providers.{not_empty}

abbrev flight : Flight
flight = record { ran = true; shared = false; desc = some "a cat"; exec_ms = 900 }

abbrev task : RequestPtr → Task
task p = record { ptr = p; hash = some "h"; flight = flight }

abbrev failed_task : RequestPtr → Task
failed_task p = record { ptr = p; hash = some "h"; flight = record flight { desc = none } }

abbrev shared_task : RequestPtr → Task
shared_task p = record { ptr = p; hash = some "h"; flight = record flight { shared = true } }

abbrev empty_cache : (c : Lru) × (0 < c.cap)
empty_cache = (record { cap = 2; ll = [] }, omega arith)

-- http://127.0.0.1:8790 is the proxy, and everything else is somewhere else.
abbrev pub net : Net
net = record {
  parse_url = λ u. some (record { scheme = "http"; host = u });
  split_host_port = λ h. if str_eq h "127.0.0.1:8790" then some ("127.0.0.1", "8790") else none;
  parse_ip = λ h. none;
  to_lower = λ s. s;
}

abbrev world : World
world = record {
  Body = String;
  unmarshal = λ b. some (request (question ∷ []));
  marshal = λ r. some "rewritten";
  upstream = λ f. responded (record { status = 200; headers = []; content = "ok" });
  schedule = λ context r ps. map task ps;
}

abbrev deps : Deps
deps = record {
  upstream_base_url = "http://api";
  upstream_api_key = "";
  fail_open = true;
  vision_base_url = none;
  vision_capable_models = [];
  listen_addr = "";
  context_rounds = pos 0;
  context_max_chars = pos 2000;
}

map-task : (ps : List RequestPtr) → map (λ t. t.ptr) (map task ps) ≡ ps
map-task [] = refl
map-task (p ∷ ps) = ap (◌∷◌ p) (map-task ps)

scheduled : Schedules lru_cache net world deps
scheduled context r =
    subst (Permᴰ (find_image_blocks r.messages)) (sym (map-task (find_image_blocks r.messages)))
      (Permᴰ.refl (find_image_blocks r.messages))

valid_request : validate (normalize_system_messages (request (question ∷ []))).0 ≡ none
unfolding normalize_system_messages normalize_loop validate validate_messages validate_message
    validate_blocks validate_block validate_image validate_source valid_role valid_media_type
    trim_space
valid_request = refl

fail_open_goes_on_example :
    (p : Prepared) × ((prepare lru_cache net world deps (request (question ∷ [])) empty_cache).0
      ≡ inr p)
    × (p.rewritten
        ≡ length
            (find_image_blocks (normalize_system_messages (request (question ∷ []))).0.messages))
unfolding vision_loops contains
fail_open_goes_on_example =
    fail_open_goes_on lru_cache net world deps (request (question ∷ [])) empty_cache scheduled refl
      refl refl valid_request

-- What goes on: the image is a text, and the system field has its instruction.
abbrev rewritten_request : Prepared
rewritten_request = record {
  request = record (request (question ∷ [])) {
    messages = update_at (first (next (head self))) (replace_image "a cat") (question ∷ []);
    system = postfix;
  };
  rewritten = 1;
  cached = 0;
  system_moved = 0;
  passthrough = false;
}

went_on :
    (prepare lru_cache net world deps (request (question ∷ [])) empty_cache).0
    ≡ inr rewritten_request
unfolding prepare contains normalize_system_messages normalize_loop validate validate_messages
    validate_message validate_blocks validate_block validate_image validate_source valid_role
    valid_media_type trim_space rewrite_images process_images process_image find_image_blocks
    collect_block is_image is_tool_result vision_loops get find vision_call
went_on = refl

prepared_holds_no_image_example :
    (find_image_blocks rewritten_request.request.messages ≡ [])
    × RequestOk (normalize_system_messages (request (question ∷ []))).0
prepared_holds_no_image_example =
    prepared_holds_no_image lru_cache net world deps (request (question ∷ [])) empty_cache
      rewritten_request scheduled went_on refl

abbrev closed : Deps
closed = record deps {
  fail_open = false;
  vision_base_url = some "127.0.0.1:8790";
  listen_addr = "127.0.0.1:8790";
}

own_address : is_self_referential_url net "127.0.0.1:8790" "127.0.0.1:8790" ≡ true
unfolding is_self_referential_url normalize_host trim_space
own_address = refl

looping_vision :
    (prepare lru_cache net world closed (request (question ∷ [])) empty_cache).0 ≡ inl 502
unfolding prepare contains normalize_system_messages normalize_loop validate validate_messages
    validate_message validate_blocks validate_block validate_image validate_source valid_role
    valid_media_type trim_space rewrite_images process_images process_image find_image_blocks
    collect_block is_image is_tool_result vision_loops loops get find is_self_referential_url
    normalize_host
looping_vision = refl

abbrev posted : HttpRequest String
posted = record { is_post = true; headers = ("Host", "x" ∷ []) ∷ []; content = body "json" }

abbrev looping : Deps
looping = record deps { upstream_base_url = "127.0.0.1:8790"; listen_addr = "127.0.0.1:8790" }

-- A parser that takes every URL for the proxy's address.
abbrev own_net : Net
own_net = record net { parse_url = λ u. some (record { scheme = "http"; host = "127.0.0.1:8790" }) }

messages-IsOwn : IsOwn own_net (append looping.upstream_base_url "/v1/messages") looping.listen_addr
unfolding is_self_referential_url normalize_host trim_space
messages-IsOwn =
    (self_referential_iff own_net (append looping.upstream_base_url "/v1/messages")
        looping.listen_addr refl refl).0
      refl

loop_is_refused_example :
    (handle_messages lru_cache own_net
        (record world { upstream = λ f. do_failed })
        looping
        posted
        empty_cache
      ≡ handle_messages lru_cache own_net world looping posted empty_cache)
    × (status : ℕ) × ((handle_messages lru_cache own_net world looping posted empty_cache).0
        ≡ refused status)
loop_is_refused_example =
    loop_is_refused lru_cache own_net world looping posted empty_cache (λ f. do_failed)
      (not_empty looping.listen_addr "" refl) messages-IsOwn

abbrev capable : Deps
capable = record deps { vision_capable_models = "m" ∷ [] }

abbrev capable_request : Request
capable_request = record (request (question ∷ [])) { model = "m" }

abbrev capable_world : World
capable_world = record world { unmarshal = λ b. some capable_request }

clean_model : sanitize_model "m" ≡ "m"
unfolding sanitize_model sanitize strip_close
clean_model = ap (λ l. of_list (sanitize l)) (to_list-of_list (letter_m ∷ []))

unchanged_verbatim_example :
    (hdr : String) × ((handle_messages lru_cache net capable_world capable posted empty_cache).0
      ≡ relays lru_cache net capable_world capable posted.headers "json" hdr)
unfolding contains loops
unchanged_verbatim_example =
    unchanged_verbatim lru_cache net capable_world capable posted "json" empty_cache scheduled refl
      refl (clean_model, inl refl) refl

abbrev picture_ptr : RequestPtr
picture_ptr = first (next (head self))

abbrev work : Work lru_cache
work = start_work lru_cache net world deps (request (question ∷ [])) empty_cache

found_picture : find_image_blocks (question ∷ []) ≡ picture_ptr ∷ []
unfolding find_image_blocks collect_block is_image is_tool_result
found_picture = refl

all_written : (process_images lru_cache true false (task picture_ptr ∷ []) work).1 ≡ none
unfolding process_images process_image get find vision_call
all_written = refl

images_replaced_example :
    find_image_blocks (process_images lru_cache true false (task picture_ptr ∷ []) work).0.messages
    ≡ []
images_replaced_example =
    images_replaced lru_cache true false (task picture_ptr ∷ []) work
      (subst (λ ps. Permᴰ ps (picture_ptr ∷ [])) (sym found_picture)
        (Permᴰ.refl (picture_ptr ∷ [])))
      all_written

process_images-Counted_example :
    Counted lru_cache false false
      (failed_task picture_ptr ∷ (task picture_ptr ∷ []))
      work
      (process_images lru_cache false false
        (failed_task picture_ptr ∷ (task picture_ptr ∷ []))
        work).0
process_images-Counted_example =
    process_images-Counted lru_cache false false (failed_task picture_ptr ∷ (task picture_ptr ∷ []))
      work

answered_run : (process_images lru_cache false false (task picture_ptr ∷ []) work).1 ≡ none
unfolding process_images process_image get find vision_call
answered_run = refl

fail_closed_needs_answers_example : Answered lru_cache (task picture_ptr ∷ []) work
fail_closed_needs_answers_example =
    fail_closed_needs_answers lru_cache (task picture_ptr ∷ []) work answered_run

nothing_cached : (lru_cache.get "h" work.cache).0 ≡ none
unfolding get find
nothing_cached = refl

abbrev client_headers : Header
client_headers = ("Authorization", "Bearer client" ∷ []) ∷ (("X-Trace", "1" ∷ ("2" ∷ [])) ∷ [])

client_headers-IsMap : IsMap client_headers
unfolding IsMap has_key
client_headers-IsMap = (refl, (refl, tt))

values-upstream_headers_example : values "Authorization" (upstream_headers "key" client_headers) ≡ (
    if not (str_eq "key" "") && str_eq "Authorization" "Authorization"
    then append "Bearer " "key" ∷ []
    else if should_strip_header "Authorization" (not (str_eq "key" ""))
    then []
    else values "Authorization" client_headers)
values-upstream_headers_example =
    values-upstream_headers "key" "Authorization" client_headers client_headers-IsMap

self_referential_iff_example :
    is_self_referential_url net "127.0.0.1:8790" "127.0.0.1:8790" ≡ true
    ↔ IsOwn net "127.0.0.1:8790" "127.0.0.1:8790"
self_referential_iff_example = self_referential_iff net "127.0.0.1:8790" "127.0.0.1:8790" refl refl
