-- ===== src/Messages/Wire/Read/Back.antt =====
-- messages/content.go: what the content of a message, and a block in it, are written as once they have
-- been read and not changed.
use blind_llm_eyes.Base.{String, ◌≡◌, ◌≢◌, ◌⊎◌, false, some, str_eq, if◌then◌else◌}
use blind_llm_eyes.Messages.Content.{Blocks}
use blind_llm_eyes.Messages.Wire.{
  arr, marshal_blocks, lookup, Json, null, text, obj, Items, none_left, item, Fields, end, field,
}
use blind_llm_eyes.Messages.Wire.Merged.{AgreeBut}
use blind_llm_eyes.Messages.Wire.Read.{content_key, Codec}

abbrev pub text_items : String → Items
text_items s =
    if str_eq s ""
    then none_left
    else item (obj (field "type" (text "text") (field "text" (text s) end))) none_left

module _ (codec : Codec) where
  open codec use {text_of, parse, key_of}

  -- The bytes of a value are some, and are read as the value.
  abbrev pub ReadsBack : Json → Type 0
  ReadsBack j = (parse (text_of j) ≡ some j) × (str_eq (text_of j) "" ≡ false)

  -- That, for the blocks in a value.
  unfoldable mutual
    pub IsSpelled : Json → Type 0
    IsSpelled null = ReadsBack null
    IsSpelled (obj fs) = ReadsBack (obj fs) × AreFieldsSpelled fs
    IsSpelled (arr js) = AreSpelled js
    IsSpelled j = Unit

    pub AreFieldsSpelled : Fields → Type 0
    AreFieldsSpelled end = Unit
    AreFieldsSpelled (field k v fs) = IsSpelled v × AreFieldsSpelled fs

    pub AreSpelled : Items → Type 0
    AreSpelled none_left = Unit
    AreSpelled (item j js) = IsSpelled j × AreSpelled js

  abbrev pub HasNoContent : Fields → Type 0
  HasNoContent end = Unit
  HasNoContent (field k v fs) = (key_of k ≢ some content_key) × HasNoContent fs

  -- What a block, the last content of a block, content and a list of blocks are written as.
  unfoldable mutual
    pub Back : Json → Json → Type 0
    Back null w = w ≡ null
    Back (obj fs) w =
        (gs : Fields) × (w ≡ obj gs)
        × AgreeBut "content" fs gs
        × ((lookup "content" gs ≡ lookup "content" fs)
            ⊎ ((ys : Items) × (lookup "content" gs ≡ some (arr ys)) × BackLast fs ys))
    Back j w = ⊥

    pub BackLast : Fields → Items → Type 0
    BackLast end ys = ⊥
    BackLast (field k v fs) ys =
        BackLast fs ys ⊎ ((key_of k ≡ some content_key) × HasNoContent fs × BackContent v ys)

    pub BackContent : Json → Items → Type 0
    BackContent null ys = ys ≡ none_left
    BackContent (text s) ys = ys ≡ text_items s
    BackContent (arr js) ys = BackItems js ys
    BackContent j ys = ⊥

    pub BackItems : Items → Items → Type 0
    BackItems none_left ys = ys ≡ none_left
    BackItems (item j js) ys =
        (w : Json) × (ws : Items) × (ys ≡ item w ws) × Back j w × BackItems js ws

  -- It is written, and as what.
  abbrev pub ContentBack : Json → Blocks → Type 0
  ContentBack c bs = (ys : Items) × (marshal_blocks parse bs ≡ some ys) × BackContent c ys

  abbrev pub LastBack : Fields → Blocks → Type 0
  LastBack fs bs = (ys : Items) × (marshal_blocks parse bs ≡ some ys) × BackLast fs ys
