-- ===== src/Vision/Clients/Mimo/Answers.antt =====
-- What the client of the Messages API answers, and when.
use blind_llm_eyes.Base.{
  ◌&&◌, subst, Option, ℕ, ◌<◌, ℤ, pos, leb, ◌≡◌, ◌≢◌, ◌⊎◌, inl, inr, refl, sym, String, str_eq,
  eq_iff, Bool, true, false, not, some, List, [], ◌∷◌, arith, Bool-cases,
}
use blind_llm_eyes.Base.Results.{
  or_err, or_err-eq-ok, ok, err, ◌>>=◌, >>=-eq-ok, reject->>-eq-ok, or_err->>=-eq-ok, ok_eq,
}
use blind_llm_eyes.Config.Providers.{not_empty}
use blind_llm_eyes.Vision.Pool.{Image, contains}
use blind_llm_eyes.Vision.Clients.{
  Client, Sent, Web, ReplyBlock, truncate, accepts, preprocess, exchange, converted, received,
  api_error, panicked, responded, unreachable, unreadable,
}
use blind_llm_eyes.Vision.Clients.Mimo.{
  request, text_of, thinking_of, twice, or_thinking, extract, describe_image_internal,
}

pub received_ok :
    (s : Sent) (body : String)
    → received s ≡ ok body
    → (status : ℕ) × (s ≡ responded status body) × (status < 400)
unfolding received
received_ok unreachable body h = cc
received_ok (unreadable status) body h = cc
received_ok (responded status given) body h = elim (Bool-cases (leb 400 status)) [
  | inl e ↦ absurd (refused_answer (truncate given (pos 500)) (rw e at h))
  | inr e ↦ (status, ground (arith, h), ground arith)
]
  where
    refused_answer :
        (o : Option String) → or_err o panicked >>= (λ p. err (api_error status p)) ≡ ok body → ⊥
    refused_answer o g = let (p, e, f) = or_err->>=-eq-ok _ g in cc

or_thinking_ok :
    (limit : ℤ) (text thinking t : String)
    → or_thinking limit text thinking ≡ ok t
    → (t ≡ text) ⊎ ((text ≡ "") × (truncate thinking (twice limit) ≡ some t))
or_thinking_ok limit text thinking t h =
    elim (Bool-cases (str_eq text "" && not (str_eq thinking ""))) [
      | inl e ↦ inr (ground (arith, eq_iff text ""), or_err-eq-ok _ _ (rw e at h))
      | inr e ↦ inl (sym (ok_eq (rw e at h)))
    ]

extract_ok :
    (limit : ℤ) (bs : List ReplyBlock) (t : String)
    → extract limit bs ≡ ok t
    → (t ≢ "")
      × ((t ≡ text_of bs)
          ⊎ ((text_of bs ≡ "") × (truncate (thinking_of bs) (twice limit) ≡ some t)))
unfolding extract
extract_ok limit [] t h = cc
extract_ok limit (b ∷ bs) t h =
    let (content, chosen, h0) = >>=-eq-ok h in
    let (full, h1) = reject->>-eq-ok _ h0 in
    let e = ok_eq h1 in
    (
      rw (sym e) (not_empty content "" full),
      or_thinking_ok limit (text_of (b ∷ bs)) (thinking_of (b ∷ bs)) t (rw (sym e) chosen),
    )

converted_ok :
    (web : Web) (image actual : Image)
    → converted web image ≡ ok actual
    → actual.media_type ≢ "image/webp"
converted_ok web image actual h = elim (Bool-cases (str_eq image.media_type "image/webp")) [
  | inl e ↦
      let (d, made, g) = >>=-eq-ok (rw e at h) in
      rw (sym (ok_eq g)) (not_empty "image/png" "image/webp" refl)
  | inr e ↦ rw (sym (ok_eq (rw e at h))) (not_empty image.media_type "image/webp" e)
]

accepted : (b : Bool) → not b ≡ false → b ≡ true
accepted true h = refl
accepted false h = cc

-- An image that is sent is no longer a WebP image, and of a format that the client supports.
preprocess_ok :
    (web : Web) (c : Client) (image actual : Image)
    → preprocess web c image ≡ ok actual
    → (actual.media_type ≢ "image/webp") × (accepts c.supported_formats actual.media_type ≡ true)
unfolding preprocess
preprocess_ok web c image actual h =
    let (made, conv, h0) = >>=-eq-ok h in
    let (fit, h1) = reject->>-eq-ok _ h0 in
    subst (λ a. (a.media_type ≢ "image/webp") × (accepts c.supported_formats a.media_type ≡ true))
      (ok_eq h1) (converted_ok web image made conv, accepted _ fit)

contains_one : (s t : String) → contains s (t ∷ []) ≡ true → t ≡ s
unfolding contains
contains_one s t h = ground (arith, eq_iff t s)

-- How a description came about: what was sent, the answer, and what was taken of it.
abbrev pub IsAnswer :
    Web → Client → Image → String → Image → ℕ → String → List ReplyBlock → String → Type 0
IsAnswer web c image context actual status body bs t =
    (preprocess web c image ≡ ok actual)
    × (actual.media_type ≢ "image/webp")
    × (web.send (request c actual image.image_size context) ≡ responded status body)
    × (status < 400)
    × (web.parse_messages body ≡ some bs)
    × (t ≢ "")
    × ((t ≡ text_of bs)
        ⊎ ((text_of bs ≡ "") × (truncate (thinking_of bs) (twice c.description_cap) ≡ some t)))

-- If the client describes an image: the request holds the preprocessed image, which is not a WebP
-- image; its answer has a status below 400 and a body that is a reply with blocks; and the description
-- is not empty: it is the text of the blocks, or, where there is no text, the start of what the model
-- thought, cut at twice the cap.
pub describe_image_internal_ok :
    (web : Web) (c : Client) (image : Image) (context t : String)
    → describe_image_internal web c image context ≡ ok t
    → (actual : Image) × (status : ℕ) × (body : String) × (bs : List ReplyBlock) × IsAnswer web c
        image context actual status body bs t
unfolding describe_image_internal exchange
describe_image_internal_ok web c image context t h =
    let (configured, h0) = reject->>-eq-ok _ h in
    let (actual, prepared, h1) = >>=-eq-ok h0 in
    let (body, exchanged, h2) = >>=-eq-ok h1 in
    let (bs, parsed, h3) = or_err->>=-eq-ok _ h2 in
    let (valid, answered) = reject->>-eq-ok _ exchanged in
    let (status, sent, low) =
      received_ok (web.send (request c actual image.image_size context)) body answered in
    let (full, origin) = extract_ok c.description_cap bs t h3 in
    let png = (preprocess_ok web c image actual prepared).0 in
    (actual, status, body, bs, (prepared, png, sent, low, parsed, full, origin))

-- A client whose only supported format is WebP describes no image, a WebP image no more than another:
-- the format is tested when the image has become a PNG image.
pub webp_only_fails :
    (web : Web) (c : Client) (image : Image) (context t : String)
    → c.supported_formats ≡ "image/webp" ∷ []
    → describe_image_internal web c image context ≢ ok t
webp_only_fails web c image context t only h =
    let (actual, status, body, bs, answer) = describe_image_internal_ok web c image context t h in
    let supported = (preprocess_ok web c image actual answer.0).1 in
    answer.1 (
      sym (
        contains_one actual.media_type "image/webp"
          (subst (λ fs. accepts fs actual.media_type ≡ true) only supported)))
