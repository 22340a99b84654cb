-- ===== src/Proxy/Images/Replaced.antt =====
-- When the group of the image goroutines succeeds, no image is left in the request.
use mathlib.Core.List.{Permᴰ}
use blind_llm_eyes.Base.{
  sym, true, ◌≡◌, refl, ap, ◌∙◌, subst, String, Bool, none, List, [], ◌∷◌, map, All, arith,
  Bool-cases, Option-cases, inl, inr,
}
use blind_llm_eyes.Base.Caches.{CacheOps}
use blind_llm_eyes.Messages.Content.{
  find_image_blocks, BlockPtr, BlocksPtr, self, inside, head, next, first, later, RequestPtr,
  update_at,
}
use blind_llm_eyes.Messages.Rewrite.{replace_image}
use blind_llm_eyes.Messages.Rewritten.{
  rewrite_all_complete, find-LeadsToImage, LeadsToImage, is_target, rewrite_all,
}
use mathlib.Core.List.Permᴰ
use blind_llm_eyes.Messages.Images.{block_ptr_eq, blocks_ptr_eq, ptr_eq}
use blind_llm_eyes.Proxy.Images.{
  Task, Work, hash_failed, cache_hit, vision_call, process_image, process_images,
}

module _ (ops : CacheOps) (fail_open vision_loop : Bool) where
  -- A goroutine without an error has written one text through its pointer.
  process_image_writes :
      (t : Task) (w : Work ops)
      → (process_image ops fail_open vision_loop t w).1 ≡ none
      → (d : String) × ((process_image ops fail_open vision_loop t w).0.messages
          ≡ update_at t.ptr (replace_image d) w.messages)
  unfolding process_image hash_failed cache_hit vision_call
  process_image_writes t w h = elim (Option-cases t.hash) [
    | inl e ↦ elim (Bool-cases fail_open) [
      | inl o ↦ ("[Image hash failed, unable to compute cache key]", ground arith)
      | inr c ↦ absurd (ground arith)
    ]
    | inr (k, e) ↦ elim (Option-cases (ops.get k w.cache).0) [
      | inr (d, f) ↦ (d, ground arith)
      | inl f ↦ elim (Option-cases t.flight.desc) [
        | inl g ↦ ("[Image could not be described by vision model]", ground arith)
        | inr (d, g) ↦ (d, ground arith)
      ]
    ]
  ]

  process_images_writes :
      (ts : List Task) (w : Work ops)
      → (process_images ops fail_open vision_loop ts w).1 ≡ none
      → (zs : List (RequestPtr × String)) × (map (λ z. z.0) zs ≡ map (λ t. t.ptr) ts)
        × ((process_images ops fail_open vision_loop ts w).0.messages ≡ rewrite_all zs w.messages)
  unfolding process_images rewrite_all
  process_images_writes [] w h = ([], refl, refl)
  process_images_writes (t ∷ ts) w h =
      elim (Option-cases (process_image ops fail_open vision_loop t w).1) [
        | inl e ↦
            let a = process_image_writes t w e in
            let b =
              process_images_writes ts (process_image ops fail_open vision_loop t w).0
                (ground arith) in
            ((t.ptr, a.0) ∷ b.0, ap (◌∷◌ t.ptr) b.1, b.2 ∙ ap (rewrite_all b.0) a.1)
        | inr (x, e) ↦ absurd (ground arith)
      ]

-- A predicate of all items of a list holds of all items of a permutation of it.
All-perm {ℓ κ} : {A : Type ℓ} (P : A → Type κ) {xs ys : List A} → Permᴰ xs ys → All P xs → All P ys
All-perm P Permᴰ.nil h = h
All-perm P (Permᴰ.cons e p) h = (subst P e h.0, All-perm P p h.1)
All-perm P (Permᴰ.swap e f) h = (subst P f h.1.0, (subst P e h.0, h.1.1))
All-perm P (Permᴰ.trans p q) h = All-perm P q (All-perm P p h)

mutual
  unfolding block_ptr_eq

  block_ptr_eq_refl : (p : BlockPtr) → block_ptr_eq p p ≡ true
  block_ptr_eq_refl self = refl
  block_ptr_eq_refl (inside p) = blocks_ptr_eq_refl p

  blocks_ptr_eq_refl : (p : BlocksPtr) → blocks_ptr_eq p p ≡ true
  blocks_ptr_eq_refl (head p) = block_ptr_eq_refl p
  blocks_ptr_eq_refl (next p) = blocks_ptr_eq_refl p

ptr_eq_refl : (p : RequestPtr) → ptr_eq p p ≡ true
unfolding ptr_eq
ptr_eq_refl (first p) = blocks_ptr_eq_refl p
ptr_eq_refl (later p) = ptr_eq_refl p

All-mono {ℓ κ ν} :
    {A : Type ℓ} {P : A → Type κ} {Q : A → Type ν} (xs : List A)
    → ((x : A) → P x → Q x)
    → All P xs
    → All Q xs
All-mono [] f h = tt
All-mono (x ∷ xs) f h = (f x h.0, All-mono xs f h.1)

All-unmap {ℓ κ ν} :
    {A : Type ℓ} {B : Type κ} (P : B → Type ν) (f : A → B) (xs : List A)
    → All P (map f xs)
    → All (λ x. P (f x)) xs
All-unmap P f [] h = tt
All-unmap P f (x ∷ xs) h = (h.0, All-unmap P f xs h.1)

targets_are_reached :
    (zs : List (RequestPtr × String)) → All (λ p. is_target zs p ≡ true) (map (λ z. z.0) zs)
unfolding is_target
targets_are_reached [] = tt
targets_are_reached (z ∷ zs) = (
  ground (arith, ptr_eq_refl z.0),
  All-mono (map (λ z. z.0) zs) (λ p h. ground arith) (targets_are_reached zs),
)

-- If the goroutines are those of the images that FindImageBlocks finds, in whatever order they
-- work, and none of them returns an error, then FindImageBlocks, which looks at the messages of
-- users and in them at tool results down to a fixed depth, finds no image any more.
pub images_replaced :
    (ops : CacheOps) (fail_open vision_loop : Bool) (ts : List Task) (w : Work ops)
    → Permᴰ (find_image_blocks w.messages) (map (λ t. t.ptr) ts)
    → (process_images ops fail_open vision_loop ts w).1 ≡ none
    → find_image_blocks (process_images ops fail_open vision_loop ts w).0.messages ≡ []
images_replaced ops fail_open vision_loop ts w perm ok =
    let u = process_images_writes ops fail_open vision_loop ts w ok in
    let images : All (LeadsToImage w.messages) (map (λ z. z.0) u.0) =
      subst (All (LeadsToImage w.messages)) (sym u.1)
        (All-perm (LeadsToImage w.messages) perm (find-LeadsToImage w.messages)) in
    let reached = subst (All (λ p. is_target u.0 p ≡ true)) u.1 (targets_are_reached u.0) in
    ap find_image_blocks u.2
    ∙ rewrite_all_complete u.0 w.messages
        (All-unmap (LeadsToImage w.messages) (λ z. z.0) u.0 images)
        (All-perm (λ p. is_target u.0 p ≡ true) (Permᴰ.symm perm) reached)
