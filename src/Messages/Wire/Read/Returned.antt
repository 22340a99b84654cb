-- ===== src/Messages/Wire/Read/Returned.antt =====
-- messages/content.go: the content of a message that is read and written.
use blind_llm_eyes.Base.{
  String, ◌≡◌, refl, sym, ap, subst, ◌∙◌, ◌≢◌, ◌⊎◌, inl, inr, false, Option, none, some, arith,
  str_eq, Bool-cases, some_eq,
}
use blind_llm_eyes.Base.Results.{and_then-eq-some, and_then}
use blind_llm_eyes.Messages.Content.{original, nil, is_tool_result, Block, block, Blocks, cons}
use blind_llm_eyes.Messages.Wire.{
  is_empty, arr, bool, num, marshal_blocks, marshal_json, Json, null, text, obj, Items, none_left,
  item, Fields, end, field,
}
use blind_llm_eyes.Messages.Wire.Merged.{marshal_json-raw, marshal_json-Keeps}
use blind_llm_eyes.Messages.Wire.Read.{
  unmarshal_items, unmarshal_content, unmarshal_block, read_fields, read_field, cons_block, node_of,
  zero_aux, content_key, type_key, text_key, source_key, is_error_key, Aux, Codec, Key, of_text,
}
use blind_llm_eyes.Messages.Wire.Read.Back.{
  text_items, ReadsBack, IsSpelled, AreFieldsSpelled, AreSpelled, HasNoContent, Back, BackLast,
  BackContent, BackItems, ContentBack, LastBack,
}

module _ (codec : Codec) where
  open codec use {text_of, parse, key_of}

  of_text-Back : (s : String) → ContentBack codec (text s) (of_text s)
  unfolding marshal_json BackContent is_tool_result and_then
  of_text-Back s = elim (Bool-cases (str_eq s "")) [
    | inl e ↦ (none_left, rw e refl, rw e refl)
    | inr e ↦ (text_items s, rw e (rw e refl), refl)
  ]

  kept_content :
      {A : Type 0} (o : Option A) (f : A → Aux) (a b : Aux)
      → ((t : A) → (f t).content ≡ a.content)
      → and_then o (λ t. some (f t)) ≡ some b
      → b.content ≡ a.content
  kept_content o f a b k h =
      let (t, q, r) = and_then-eq-some o (λ t. some (f t)) h in
      ap (λ (x : Aux). x.content) (sym (some_eq r)) ∙ k t

  -- Only a key that is taken for content changes it.
  read_field-content :
      (key : Option Key) (v : Json) (content : Option Blocks) (a b : Aux)
      → read_field codec key v content a ≡ some b
      → ((key ≢ some content_key) × (b.content ≡ a.content))
        ⊎ ((key ≡ some content_key) × (content ≡ some b.content))
  read_field-content none v content a b h =
      inl ((λ q. cc), ap (λ (x : Aux). x.content) (sym (some_eq h)))
  read_field-content (some type_key) v content a b h =
      inl ((λ q. cc), kept_content _ _ a b (λ t. refl) h)
  read_field-content (some text_key) v content a b h =
      inl ((λ q. cc), kept_content _ _ a b (λ t. refl) h)
  read_field-content (some source_key) v content a b h =
      inl ((λ q. cc), kept_content _ _ a b (λ t. refl) h)
  read_field-content (some content_key) v content a b h =
      let (bs, q, r) = and_then-eq-some content (λ bs. some (record a { content = bs })) h in
      inr (refl, q ∙ ap (λ (x : Aux). some x.content) (some_eq r))
  read_field-content (some is_error_key) v content a b h =
      inl ((λ q. cc), kept_content _ _ a b (λ t. refl) h)

  cons_block-eq-some :
      (o : Option Block) (p : Option Blocks) (bs : Blocks)
      → cons_block o p ≡ some bs
      → (b : Block) × (cs : Blocks) × (o ≡ some b) × (p ≡ some cs) × (cons b cs ≡ bs)
  cons_block-eq-some (some b) (some cs) bs h = (b, cs, refl, refl, some_eq h)
  cons_block-eq-some (some b) none bs h = cc
  cons_block-eq-some none p bs h = cc

  abbrev BlockBack : Json → Block → Type 0
  BlockBack j b = (w : Json) × (marshal_json parse b ≡ some w) × Back codec j w

  -- The content is not there, or what the last one is.
  abbrev FieldsBack : Fields → Blocks → Blocks → Type 0
  FieldsBack fs old bs = (HasNoContent codec fs × (bs ≡ old)) ⊎ LastBack codec fs bs

  null-Back : ReadsBack codec null → BlockBack null (block (node_of (text_of null) zero_aux) nil)
  unfolding is_tool_result Back
  null-Back r = (
    null,
    marshal_json-raw parse (node_of (text_of null) zero_aux) nil (original (text_of null)) refl r.1
        ∙ r.0,
    refl,
  )

  inner_items :
      (fs : Fields) (bs : Blocks)
      → FieldsBack fs nil bs
      → (xs : Items) × (marshal_blocks parse bs ≡ some xs)
        × (is_empty bs ≡ false → BackLast codec fs xs)
  unfolding marshal_json
  inner_items fs bs (inr (ys, out, last)) = (ys, out, λ e. last)
  inner_items fs bs (inl (n, e)) =
      (none_left, rw e refl, λ f. absurd (ground (arith, f, ap is_empty e)))

  obj-Back :
      (fs : Fields) (a : Aux)
      → ReadsBack codec (obj fs)
      → FieldsBack fs nil a.content
      → BlockBack (obj fs) (block (node_of (text_of (obj fs)) a) a.content)
  unfolding Back
  obj-Back fs a r f =
      let (xs, inner, last) = inner_items fs a.content f in
      let (gs, out, (agree, tail)) =
        marshal_json-Keeps parse (node_of (text_of (obj fs)) a) a.content
          (original (text_of (obj fs))) fs xs refl r.1 r.0 inner in
      (
        obj gs,
        out,
        (
          gs,
          refl,
          agree,
          elim tail [
            | inl (tool, some_left, l) ↦ inr (xs, l, last some_left)
            | inr (other, same) ↦ inl same
          ],
        ),
      )

  one_more :
      (j w : Json) (js ws : Items) (b : Block) (bs : Blocks)
      → (marshal_json parse b ≡ some w) × Back codec j w
      → (marshal_blocks parse bs ≡ some ws) × BackItems codec js ws
      → (ys : Items) × (marshal_blocks parse (cons b bs) ≡ some ys) × BackItems codec (item j js) ys
  unfolding marshal_json Back
  one_more j w js ws b bs one rest =
      (item w ws, rw (one.0, rest.0) refl, (w, ws, refl, one.1, rest.1))

  mutual
    unfolding unmarshal_block IsSpelled Back marshal_json

    block_back :
        (j : Json) (b : Block)
        → IsSpelled codec j
        → unmarshal_block codec j ≡ some b
        → BlockBack j b
    block_back null b s h = subst (BlockBack null) (some_eq h) (null-Back s)
    block_back (obj fs) b s h =
        let (a, q, r) = and_then-eq-some (read_fields codec fs zero_aux) _ h in
        subst (BlockBack (obj fs)) (some_eq r) (obj-Back fs a s.0 (fields_back fs zero_aux a s.1 q))
    block_back (bool x) b s h = cc
    block_back (num x) b s h = cc
    block_back (text x) b s h = cc
    block_back (arr x) b s h = cc

    fields_back :
        (fs : Fields) (a b : Aux)
        → AreFieldsSpelled codec fs
        → read_fields codec fs a ≡ some b
        → FieldsBack fs a.content b.content
    fields_back end a b s h = inl (tt, ap (λ (x : Aux). x.content) (sym (some_eq h)))
    fields_back (field k v fs) a b s h =
        let (x, q, r) =
          and_then-eq-some (read_field codec (key_of k) v (unmarshal_content codec v) a)
            (λ y. read_fields codec fs y) h in
        elim (fields_back fs x b s.1 r) [
          | inr (ys, out, last) ↦ inr (ys, out, inl last)
          | inl (without, same) ↦
              elim (read_field-content (key_of k) v (unmarshal_content codec v) a x q) [
                | inl (other, old) ↦ inl ((other, without), same ∙ old)
                | inr (here, u) ↦
                    let (ys, out, back) = content_back v x.content s.0 u in
                    inr (ys, ap (marshal_blocks parse) same ∙ out, inr (here, without, back))
              ]
        ]

    content_back :
        (c : Json) (bs : Blocks)
        → IsSpelled codec c
        → unmarshal_content codec c ≡ some bs
        → ContentBack codec c bs
    content_back null bs s h = subst (ContentBack codec null) (some_eq h) (none_left, refl, refl)
    content_back (text t) bs s h = subst (ContentBack codec (text t)) (some_eq h) (of_text-Back t)
    content_back (arr js) bs s h = items_back js bs s h
    content_back (bool x) bs s h = cc
    content_back (num x) bs s h = cc
    content_back (obj x) bs s h = cc

    items_back :
        (js : Items) (bs : Blocks)
        → AreSpelled codec js
        → unmarshal_items codec js ≡ some bs
        → (ys : Items) × (marshal_blocks parse bs ≡ some ys) × BackItems codec js ys
    items_back none_left bs s h =
        subst
          (λ cs. (ys : Items) × (marshal_blocks parse cs ≡ some ys) × BackItems codec none_left ys)
          (some_eq h) (none_left, refl, refl)
    items_back (item j js) bs s h =
        let (b, cs, q, r, whole) =
          cons_block-eq-some (unmarshal_block codec j) (unmarshal_items codec js) bs h in
        let (w, written, one) = block_back j b s.0 q in
        let (ws, out, rest) = items_back js cs s.1 r in
        subst
          (λ ds.
            (ys : Items) × (marshal_blocks parse ds ≡ some ys) × BackItems codec (item j js) ys)
          whole (one_more j w js ws b cs (written, one) (out, rest))

  -- Content that has been read can be written, if each block in it is read back from its own bytes: a list
  -- as a list of the same length, a text as the block of that text, and null as no block. A block that is
  -- null stays so. A block that is an object is written as an object with the same under every key but
  -- content, and there with the same, or with what the last content in it is written as.
  pub unmarshal_content-Back :
      (c : Json) (bs : Blocks)
      → IsSpelled codec c
      → unmarshal_content codec c ≡ some bs
      → ContentBack codec c bs
  unmarshal_content-Back = content_back
