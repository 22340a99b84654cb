-- ===== src/Messages/Recent.antt =====
-- messages/context.go: how much of the conversation ExtractConversationContext takes.
use Prim.Native.String.{len}
use blind_llm_eyes.Base.{
  ℕ, suc, ◌+◌, ◌≤◌, ◌<◌, ◌≡◌, refl, String, str_eq, true, false, ◌&&◌, leb, ltb, List, [], ◌∷◌,
  ◌++◌, arith, Bool-cases, Option-cases, inl, inr, ◌⊎◌, if◌then◌else◌, map,
}
use blind_llm_eyes.Messages.Content.{
  Block, Blocks, block, nil, cons, Message, collect_block, collect_blocks, head, next, inside,
}
use blind_llm_eyes.Messages.Context.{
  Collected, collect_message, collect_recent, keep_lines, has_image_recursive, any_image,
  message_has_image,
}
use blind_llm_eyes.Messages.Validate.{is_empty}

-- How many of the collected texts are of the user.
unfoldable pub count_users : List Collected → ℕ
count_users [] = 0
count_users (c ∷ cs) = let rest = count_users cs in if str_eq c.role "user" then suc rest else rest

-- Of the texts of the user the walk takes those of the last recentRounds messages at most.
pub collect_recent_bound :
    (to_lower : String → String) (rounds users : ℕ) (ms : List Message)
    → users < rounds
    → users + count_users (collect_recent to_lower rounds users ms) ≤ rounds
unfolding collect_recent count_users
collect_recent_bound lower rounds users [] h = omega arith
collect_recent_bound lower rounds users (m ∷ ms) h = elim (Option-cases (collect_message lower m)) [
  | inl e ↦ ground (arith, collect_recent_bound lower rounds users ms h)
  | inr (c, e) ↦ elim (Bool-cases (str_eq c.role "user")) [
    | inl u ↦ elim (Bool-cases (leb rounds (suc users))) [
      | inl last ↦ ground arith
      | inr more ↦ ground (arith, collect_recent_bound lower rounds (suc users) ms (ground arith))
    ]
    | inr a ↦ ground (arith, collect_recent_bound lower rounds users ms h)
  ]
]

-- The length of the lines, each with its line break.
unfoldable pub total_len : List String → ℕ
total_len [] = 0
total_len (l ∷ ls) = len l + 1 + total_len ls

keep_lines_older :
    (max total : ℕ) (ls : List String)
    → total ≤ max
    → total + total_len (keep_lines max total false ls) ≤ max
unfolding keep_lines total_len
keep_lines_older max total [] h = omega arith
keep_lines_older max total (l ∷ ls) h = elim (Bool-cases (ltb max (total + (len l + 1)))) [
  | inl over ↦ ground arith
  | inr fits ↦ ground (arith, keep_lines_older max (total + (len l + 1)) ls (ground arith))
]

keep_lines_full :
    (max total : ℕ) (ls : List String) → max < total → keep_lines max total false ls ≡ []
unfolding keep_lines
keep_lines_full max total [] h = refl
keep_lines_full max total (l ∷ ls) h = ground arith

keep_lines_prefix :
    (max total : ℕ) (ls : List String)
    → (older : List String) × (keep_lines max total false ls ++ older ≡ ls)
unfolding keep_lines
keep_lines_prefix max total [] = ([], refl)
keep_lines_prefix max total (l ∷ ls) = elim (Bool-cases (ltb max (total + (len l + 1)))) [
  | inl over ↦ (l ∷ ls, ground arith)
  | inr fits ↦ let t = keep_lines_prefix max (total + (len l + 1)) ls in (t.0, ground (arith, t.1))
]

-- The lines kept are the newest ones in order, and take at most maxChars characters, each with its
-- line break, unless only the newest is kept.
pub keep_lines_bound :
    (max : ℕ) (newest : String) (ls : List String)
    → (rest : List String) × (keep_lines max 0 true (newest ∷ ls) ≡ newest ∷ rest)
      × ((rest ≡ []) ⊎ (total_len (newest ∷ rest) ≤ max))
      × ((older : List String) × (rest ++ older ≡ ls))
unfolding keep_lines total_len
keep_lines_bound max newest ls = elim (Bool-cases (ltb max (0 + (len newest + 1)))) [
  | inl over ↦ (
    keep_lines max (0 + (len newest + 1)) false ls,
    rw over,
    inl (keep_lines_full max (0 + (len newest + 1)) ls (ground arith)),
    keep_lines_prefix max (0 + (len newest + 1)) ls,
  )
  | inr fits ↦ (
    keep_lines max (0 + (len newest + 1)) false ls,
    rw fits,
    inr (omega (arith, keep_lines_older max (0 + (len newest + 1)) ls (ground arith))),
    keep_lines_prefix max (0 + (len newest + 1)) ls,
  )
]

is_empty-append {ℓ} :
    {A : Type ℓ} (xs ys : List A) → is_empty (xs ++ ys) ≡ is_empty xs && is_empty ys
is_empty-append [] ys = refl
is_empty-append (x ∷ xs) ys = refl

is_empty-map {ℓ κ} :
    {A : Type ℓ} {B : Type κ} (f : A → B) (xs : List A) → is_empty (map f xs) ≡ is_empty xs
is_empty-map f [] = refl
is_empty-map f (x ∷ xs) = refl

mutual
  unfolding has_image_recursive collect_block

  image_is_found :
      (b : Block) (depth : ℕ)
      → has_image_recursive b depth ≡ true
      → is_empty (collect_block b depth) ≡ false
  image_is_found (block n bs) depth h = elim (Bool-cases (any_image bs (suc depth))) [
    | inl deeper ↦ ground (
      arith,
      images_are_found bs (suc depth) deeper,
      is_empty-map inside (collect_blocks bs (suc depth)),
    )
    | inr other ↦ ground arith
  ]

  images_are_found :
      (bs : Blocks) (depth : ℕ)
      → any_image bs depth ≡ true
      → is_empty (collect_blocks bs depth) ≡ false
  images_are_found nil depth h = absurd (ground arith)
  images_are_found (cons b bs) depth h = elim (Bool-cases (has_image_recursive b depth)) [
    | inl here ↦ ground (
      arith,
      is_empty-append (map head (collect_block b depth)) (map next (collect_blocks bs depth)),
      is_empty-map head (collect_block b depth),
      image_is_found b depth here,
    )
    | inr later ↦ ground (
      arith,
      is_empty-append (map head (collect_block b depth)) (map next (collect_blocks bs depth)),
      is_empty-map next (collect_blocks bs depth),
      images_are_found bs depth (ground arith),
    )
  ]

-- A message that messageHasImage reports holds an image that FindImageBlocks finds.
pub message_has_image_lem :
    (m : Message) → message_has_image m ≡ true → is_empty (collect_blocks m.content 0) ≡ false
unfolding message_has_image
message_has_image_lem m h = images_are_found m.content 0 h
