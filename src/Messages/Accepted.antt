-- ===== src/Messages/Accepted.antt =====
-- messages/validate.go: which requests Validate accepts, and what its errors point at.
use text.Mathlib.Text.{starts_with}
use blind_llm_eyes.Base.{
  zero, eq_iff, subst, ℕ, suc, ◌+◌, ℤ, pos, negsuc, ◌≡◌, refl, sym, String, str_eq, true, false,
  Option, none, some, List, [], ◌∷◌, All, arith, Bool-cases, Option-cases, inl, inr, ◌↔◌,
}
use blind_llm_eyes.Messages.Content.{ImageSource, Node, Blocks, block, nil, cons, Message, Request}
use blind_llm_eyes.Messages.Validate.{
  check_max_tokens, validate_image, MessageError, trim_space, valid_role, valid_media_type,
  validate_source, validate_block, validate_blocks, validate_message, validate_messages, validate,
  is_nil, is_empty, bad_message,
}

abbrev SourceOk : ImageSource → Type 0
SourceOk s =
    (str_eq s.typ "base64" ≡ true)
    × (valid_media_type s.media_type ≡ true)
    × (str_eq (trim_space s.base64_data) "" ≡ false)
    × (starts_with (trim_space s.base64_data) "data:" ≡ false)

abbrev ImageOk : Option ImageSource → Type 0
ImageOk none = ⊥
ImageOk (some s) = SourceOk s

abbrev BlockOk : Node → Type 0
BlockOk n =
    (str_eq n.typ "" ≡ false)
    × (str_eq n.typ "text" ≡ true → str_eq n.text "" ≡ false)
    × (str_eq n.typ "image" ≡ true → ImageOk n.source)

abbrev BlocksOk : Blocks → Type 0
BlocksOk nil = Unit
BlocksOk (cons (block n bs) rest) = BlockOk n × BlocksOk rest

abbrev pub MessageOk : Message → Type 0
MessageOk m = (valid_role m.role ≡ true) × (is_nil m.content ≡ false) × BlocksOk m.content

abbrev NotNegative : ℤ → Type 0
NotNegative (pos n) = Unit
NotNegative (negsuc n) = ⊥

-- What the proxy asks of a request.
abbrev pub RequestOk : Request → Type 0
RequestOk r =
    (str_eq r.model "" ≡ false)
    × (is_empty r.messages ≡ false)
    × All MessageOk r.messages
    × NotNegative r.max_tokens

nonempty_type : (s : ImageSource) → str_eq s.typ "base64" ≡ true → str_eq s.typ "" ≡ false
nonempty_type s h = rw ((eq_iff s.typ "base64").0 h)

nonempty_media_type : (t : String) → valid_media_type t ≡ true → str_eq t "" ≡ false
unfolding valid_media_type
nonempty_media_type t h = elim (Bool-cases (str_eq t "")) [
  | inl e ↦
      absurd
        (subst (λ u. valid_media_type u ≡ true → ⊥) (sym ((eq_iff t "").0 e)) (λ k. ground arith) h)
  | inr e ↦ e
]

nonempty_data : (t : String) → str_eq (trim_space t) "" ≡ false → str_eq t "" ≡ false
unfolding trim_space
nonempty_data t h = elim (Bool-cases (str_eq t "")) [
  | inl e ↦ absurd (
      subst (λ u. str_eq (trim_space u) "" ≡ false → ⊥) (sym ((eq_iff t "").0 e))
        (λ k. ground arith) h)
  | inr e ↦ e
]

validate_source_iff : (s : ImageSource) → validate_source s ≡ none ↔ SourceOk s
unfolding validate_source
validate_source_iff s = (
  λ h. (ground arith, ground arith, ground arith, ground arith),
  λ h. ground (
    arith,
    nonempty_type s h.0,
    nonempty_media_type s.media_type h.1,
    nonempty_data s.base64_data h.2,
  ),
)

validate_image_iff : (s : Option ImageSource) → validate_image s ≡ none ↔ ImageOk s
unfolding validate_image
validate_image_iff none = (λ h. absurd (ground arith), λ h. absurd h)
validate_image_iff (some s) =
    (λ h. (validate_source_iff s).0 (ground arith), λ h. rw ((validate_source_iff s).1 h))

image_is_no_text :
    (t : String) → str_eq t "image" ≡ true → (str_eq t "text" ≡ false) × (str_eq t "" ≡ false)
image_is_no_text t h = rw ((eq_iff t "image").0 h) (refl, refl)

validate_block_iff : (n : Node) → validate_block n ≡ none ↔ BlockOk n
unfolding validate_block
validate_block_iff n = (
  λ h. (
    ground arith,
    λ t. ground arith,
    λ i. (validate_image_iff n.source).0 (ground (arith, image_is_no_text n.typ i)),
  ),
  λ h. elim (Bool-cases (str_eq n.typ "image")) [
    | inl i ↦ ground (arith, image_is_no_text n.typ i, (validate_image_iff n.source).1 (h.2 i))
    | inr i ↦ elim (Bool-cases (str_eq n.typ "text")) [
      | inl t ↦ ground (arith, h.1 t)
      | inr t ↦ ground arith
    ]
  ],
)

validate_blocks_iff : (j : ℕ) (bs : Blocks) → validate_blocks j bs ≡ none ↔ BlocksOk bs
unfolding validate_blocks
validate_blocks_iff j nil = (λ h. tt, λ h. refl)
validate_blocks_iff j (cons (block n bs) rest) = elim (Option-cases (validate_block n)) [
  | inl e ↦ (
    λ h. ((validate_block_iff n).0 e, (validate_blocks_iff (suc j) rest).0 (ground arith)),
    λ h. ground (arith, (validate_blocks_iff (suc j) rest).1 h.1),
  )
  | inr (x, e) ↦
      (λ h. absurd (ground arith), λ h. absurd (ground (arith, (validate_block_iff n).1 h.0)))
]

nonempty_role : (t : String) → valid_role t ≡ true → str_eq t "" ≡ false
unfolding valid_role
nonempty_role t h = elim (Bool-cases (str_eq t "")) [
  | inl e ↦
      absurd (subst (λ u. valid_role u ≡ true → ⊥) (sym ((eq_iff t "").0 e)) (λ k. ground arith) h)
  | inr e ↦ e
]

pub validate_message_iff : (m : Message) → validate_message m ≡ none ↔ MessageOk m
unfolding validate_message
validate_message_iff m = (
  λ h. (ground arith, ground arith, (validate_blocks_iff 0 m.content).0 (ground arith)),
  λ h. ground (arith, nonempty_role m.role h.0, (validate_blocks_iff 0 m.content).1 h.2),
)

pub validate_messages_iff :
    (i : ℕ) (ms : List Message) → validate_messages i ms ≡ none ↔ All MessageOk ms
unfolding validate_messages
validate_messages_iff i [] = (λ h. tt, λ h. refl)
validate_messages_iff i (m ∷ ms) = elim (Option-cases (validate_message m)) [
  | inl e ↦ (
    λ h. ((validate_message_iff m).0 e, (validate_messages_iff (suc i) ms).0 (ground arith)),
    λ h. ground (arith, (validate_messages_iff (suc i) ms).1 h.1),
  )
  | inr (x, e) ↦
      (λ h. absurd (ground arith), λ h. absurd (ground (arith, (validate_message_iff m).1 h.0)))
]

max_tokens_iff : (x : ℤ) → check_max_tokens x ≡ none ↔ NotNegative x
max_tokens_iff (pos n) = (λ h. tt, λ h. refl)
max_tokens_iff (negsuc n) = (λ h. absurd (ground arith), λ h. absurd h)

-- Validate accepts exactly the requests with a model, at least one message, messages of the role
-- user or assistant with well-formed content, and no negative max_tokens.
pub validate_iff : (r : Request) → validate r ≡ none ↔ RequestOk r
unfolding validate
validate_iff r = (
  λ h. (
    ground arith,
    ground arith,
    (validate_messages_iff 0 r.messages).0 (elim (Option-cases (validate_messages 0 r.messages)) [
      | inl e ↦ e
      | inr (x, e) ↦ absurd (ground arith)
    ]),
    (max_tokens_iff r.max_tokens).0 (ground arith),
  ),
  λ h.
      ground
        (arith, (validate_messages_iff 0 r.messages).1 h.2, (max_tokens_iff r.max_tokens).1 h.3),
)

-- The item at the position of the error is the first one that is refused.
abbrev pub FirstRefused : ℕ → MessageError → List Message → Type 0
FirstRefused j e [] = ⊥
FirstRefused zero e (m ∷ ms) = validate_message m ≡ some e
FirstRefused (suc j) e (m ∷ ms) = MessageOk m × FirstRefused j e ms

validate_messages_first :
    (i j : ℕ) (e : MessageError) (ms : List Message)
    → validate_messages i ms ≡ some (bad_message j e)
    → (k : ℕ) × (j ≡ i + k) × FirstRefused k e ms
unfolding validate_messages
validate_messages_first i j e [] h = absurd (ground arith)
validate_messages_first i j e (m ∷ ms) h = elim (Option-cases (validate_message m)) [
  | inl accepted ↦
      let t = validate_messages_first (suc i) j e ms (ground arith) in
      (suc t.0, omega (arith, t.1), ((validate_message_iff m).0 accepted, t.2))
  | inr (x, refused) ↦ (0, ground arith, ground arith)
]

max_tokens_no_message :
    (x : ℤ) (j : ℕ) (e : MessageError) → check_max_tokens x ≡ some (bad_message j e) → ⊥
max_tokens_no_message (pos n) j e h = absurd (ground arith)
max_tokens_no_message (negsuc n) j e h = absurd (ground arith)

-- An error about a message carries the position of the first message that is refused, and the
-- error of that message.
pub validate_first :
    (r : Request) (j : ℕ) (e : MessageError)
    → validate r ≡ some (bad_message j e)
    → FirstRefused j e r.messages
unfolding validate
validate_first r j e h =
    let refused : validate_messages 0 r.messages ≡ some (bad_message j e) =
      elim (Option-cases (validate_messages 0 r.messages)) [
        | inl passed ↦ absurd (max_tokens_no_message r.max_tokens j e (ground arith))
        | inr (x, e) ↦ ground arith
      ] in
    let t = validate_messages_first 0 j e r.messages refused in
    let same : j ≡ t.0 = omega (arith, t.1) in
    subst (λ k. FirstRefused k e r.messages) (sym same) t.2
