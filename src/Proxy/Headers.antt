-- ===== src/Proxy/Headers.antt =====
-- proxy/handler.go: the headers of the request to the upstream, and of the answer. A header is a list
-- of keys with their values; Go's maps hold a key once, in no order.
pub mod Forwarded
use Prim.Native.String.{◌++◌ as append}
use blind_llm_eyes.Base.{
  ◌≡◌, String, str_eq, Bool, true, false, not, ◌||◌, if◌then◌else◌, List, [], ◌∷◌, ◌++◌,
}

abbrev pub Header : Type 0
Header = List (String × List String)

-- Header.Add
unfoldable pub add : String → String → Header → Header
add k v [] = (k, v ∷ []) ∷ []
add k v ((k', vs) ∷ h) =
    let rest = add k v h in if str_eq k' k then (k', vs ++ (v ∷ [])) ∷ h else (k', vs) ∷ rest

-- Header.Set
unfoldable pub set : String → String → Header → Header
set k v [] = (k, v ∷ []) ∷ []
set k v ((k', vs) ∷ h) =
    let rest = set k v h in if str_eq k' k then (k', v ∷ []) ∷ h else (k', vs) ∷ rest

-- The values of a key: those of its entry.
unfoldable pub values : String → Header → List String
values k [] = []
values k ((k', vs) ∷ h) = let rest = values k h in if str_eq k' k then vs else rest

-- The key is in the header.
unfoldable pub has_key : String → Header → Bool
has_key k [] = false
has_key k ((k', vs) ∷ h) = str_eq k' k || has_key k h

-- Every key once, as in a map.
unfoldable pub IsMap : Header → Type 0
IsMap [] = Unit
IsMap ((k, vs) ∷ h) = (has_key k h ≡ false) × IsMap h

unfoldable pub should_strip_header : String → Bool → Bool
should_strip_header k has_upstream_key =
    if str_eq k "Host"
    then true
    else if str_eq k "Authorization" || str_eq k "Proxy-Authorization" || str_eq k "Cookie"
    then has_upstream_key
    else false

unfoldable pub add_values : String → List String → Header → Header
add_values k [] h = h
add_values k (v ∷ vs) h = add_values k vs (add k v h)

-- for k, vs := range r.Header
unfoldable pub copy_headers : (strip : String → Bool) → Header → Header → Header
copy_headers strip [] dst = dst
copy_headers strip ((k, vs) ∷ src) dst =
    let skipped = copy_headers strip src dst in
    let copied = copy_headers strip src (add_values k vs dst) in if strip k then skipped else copied

unfoldable pub upstream_headers : String → Header → Header
upstream_headers api_key from =
    let keyed = not (str_eq api_key "") in
    let copied = copy_headers (λ k. should_strip_header k keyed) from [] in
    if keyed then set "Authorization" (append "Bearer " api_key) copied else copied
