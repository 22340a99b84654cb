-- ===== src/Proxy/Passthrough.antt =====
-- proxy/passthrough.go: the loop of CopyResponse. A read gives the bytes that were read and, behind
-- the last ones, the end or an error; a write takes all of its bytes or fails.
use mathlib.Core.List.{append-nil}
use blind_llm_eyes.Base.{◌≡◌, refl, ap, ◌∙◌, Bool, true, if◌then◌else◌, List, [], ◌∷◌, ◌++◌}
use blind_llm_eyes.Messages.Validate.{is_empty}

pub data ReadState : Type 0 where
  more eof read_error : ReadState

pub data CopyResult : Type 0 where
  copied write_failed read_failed stuck : CopyResult

module _ {Byte : Type 0} where
  -- What the client has received, and how the copy ended. The flush follows each write.
  abbrev before : List Byte → List Byte × CopyResult → List Byte × CopyResult
  before bs r = (bs ++ r.0, r.1)

  abbrev finish : ReadState → List Byte × CopyResult → List Byte × CopyResult
  finish more r = r
  finish eof r = ([], copied)
  finish read_error r = ([], read_failed)

  -- The reads of the body in order; accepts tells whether the write of these bytes succeeds. The
  -- loop ends with the reads only if they do, with the end or an error (else it is stuck).
  unfoldable pub copy_body :
      (accepts : List Byte → Bool) → List (List Byte × ReadState) → List Byte × CopyResult
  copy_body accepts [] = ([], stuck)
  copy_body accepts ((bs, state) ∷ reads) =
      let rest = finish state (copy_body accepts reads) in
      if is_empty bs then rest else if accepts bs then before bs rest else ([], write_failed)

  -- What the body holds up to its end.
  unfoldable pub content_of : List (List Byte × ReadState) → List Byte
  content_of [] = []
  content_of ((bs, more) ∷ reads) = bs ++ content_of reads
  content_of ((bs, eof) ∷ reads) = bs
  content_of ((bs, read_error) ∷ reads) = bs

  -- The reads end with the end of the body.
  unfoldable pub Ends : List (List Byte × ReadState) → Type 0
  Ends [] = ⊥
  Ends ((bs, more) ∷ reads) = Ends reads
  Ends ((bs, eof) ∷ reads) = Unit
  Ends ((bs, read_error) ∷ reads) = ⊥

  step_of :
      (bs : List Byte) (r : List Byte × CopyResult)
      → (if is_empty bs then r else before bs r) ≡ (bs ++ r.0, r.1)
  step_of [] r = refl
  step_of (b ∷ bs) r = refl

  -- A body that is read to its end reaches a client that takes every write as it is, in order.
  pub copy_complete :
      (reads : List (List Byte × ReadState))
      → Ends reads
      → copy_body (λ bs. true) reads ≡ (content_of reads, copied)
  unfolding copy_body content_of Ends
  copy_complete [] h = absurd h
  copy_complete ((bs, more) ∷ reads) h =
      step_of bs (copy_body (λ x. true) reads) ∙ ap (before bs) (copy_complete reads h)
  copy_complete ((bs, eof) ∷ reads) h =
      step_of bs ([], copied) ∙ ap (λ x. (x, copied)) (append-nil bs)
  copy_complete ((bs, read_error) ∷ reads) h = absurd h
