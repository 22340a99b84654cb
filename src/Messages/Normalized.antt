-- ===== src/Messages/Normalized.antt =====
-- messages/rewrite.go: NormalizeSystemMessages against a plain description of it.
use blind_llm_eyes.Base.{
  ℕ, suc, ◌≡◌, refl, sym, ap, ◌∙◌, str_eq, false, List, [], ◌∷◌, All, ltb, arith, Bool-cases, inl,
  inr, if◌then◌else◌,
}
use blind_llm_eyes.Messages.Content.{Blocks, nil, cons, Message, Request, append_blocks}
use blind_llm_eyes.Messages.Rewrite.{normalize_loop, normalize_system_messages}

append_blocks_assoc :
    (a b c : Blocks) → append_blocks (append_blocks a b) c ≡ append_blocks a (append_blocks b c)
append_blocks_assoc nil b c = refl
append_blocks_assoc (cons x a) b c = ap (cons x) (append_blocks_assoc a b c)

append_blocks_nil : (a : Blocks) → append_blocks a nil ≡ a
append_blocks_nil nil = refl
append_blocks_nil (cons x a) = ap (cons x) (append_blocks_nil a)

-- The content of the system messages, in order; the other messages; how many are system messages.
unfoldable pub system_content : List Message → Blocks
system_content [] = nil
system_content (m ∷ ms) =
    let rest = system_content ms in
    if str_eq m.role "system" then append_blocks m.content rest else rest

unfoldable pub others : List Message → List Message
others [] = []
others (m ∷ ms) = let rest = others ms in if str_eq m.role "system" then rest else m ∷ rest

unfoldable pub count_system : List Message → ℕ
count_system [] = 0
count_system (m ∷ ms) =
    let rest = count_system ms in if str_eq m.role "system" then suc rest else rest

loop_system :
    (s : Blocks) (ms : List Message)
    → (normalize_loop s ms).system ≡ append_blocks s (system_content ms)
unfolding normalize_loop system_content
loop_system s [] = sym (append_blocks_nil s)
loop_system s (m ∷ ms) = elim (Bool-cases (str_eq m.role "system")) [
  | inl e ↦ rw e (
      loop_system (append_blocks s m.content) ms
      ∙ append_blocks_assoc s m.content (system_content ms))
  | inr e ↦ rw e (loop_system s ms)
]

loop_filtered : (s : Blocks) (ms : List Message) → (normalize_loop s ms).filtered ≡ others ms
unfolding normalize_loop others
loop_filtered s [] = refl
loop_filtered s (m ∷ ms) = elim (Bool-cases (str_eq m.role "system")) [
  | inl e ↦ rw e (loop_filtered (append_blocks s m.content) ms)
  | inr e ↦ rw e (ap (◌∷◌ m) (loop_filtered s ms))
]

loop_moved : (s : Blocks) (ms : List Message) → (normalize_loop s ms).moved ≡ count_system ms
unfolding normalize_loop count_system
loop_moved s [] = refl
loop_moved s (m ∷ ms) = elim (Bool-cases (str_eq m.role "system")) [
  | inl e ↦ rw e (ap suc (loop_moved (append_blocks s m.content) ms))
  | inr e ↦ rw e (loop_moved s ms)
]

others_none_moved : (ms : List Message) → ltb 0 (count_system ms) ≡ false → others ms ≡ ms
unfolding others count_system
others_none_moved [] h = refl
others_none_moved (m ∷ ms) h = elim (Bool-cases (str_eq m.role "system")) [
  | inl e ↦ absurd (ground arith)
  | inr e ↦ rw e (ap (◌∷◌ m) (others_none_moved ms (ground arith)))
]

others_stay : (ms : List Message) → (if ltb 0 (count_system ms) then others ms else ms) ≡ others ms
others_stay ms = elim (Bool-cases (ltb 0 (count_system ms))) [
  | inl e ↦ rw e
  | inr e ↦ ground (arith, others_none_moved ms e)
]

-- NormalizeSystemMessages puts the content of the system messages behind the system field, in their
-- order, leaves the other messages in theirs and everything else as it is, and returns how many
-- system messages there were.
pub normalize_lem :
    (r : Request)
    → normalize_system_messages r ≡ (
      record r {
        system = append_blocks r.system (system_content r.messages);
        messages = others r.messages;
      },
      count_system r.messages,
    )
unfolding normalize_system_messages
normalize_lem r = rw (
  loop_moved r.system r.messages,
  loop_filtered r.system r.messages,
  loop_system r.system r.messages,
  others_stay r.messages,
)

others_no_system : (ms : List Message) → All (λ m. str_eq m.role "system" ≡ false) (others ms)
unfolding others
others_no_system [] = tt
others_no_system (m ∷ ms) = elim (Bool-cases (str_eq m.role "system")) [
  | inl e ↦ rw e (others_no_system ms)
  | inr e ↦ rw e (e, others_no_system ms)
]

-- After NormalizeSystemMessages no message is a system message.
pub normalize_leaves_no_system :
    (r : Request)
    → All (λ m. str_eq m.role "system" ≡ false) (normalize_system_messages r).0.messages
normalize_leaves_no_system r = rw (normalize_lem r) (others_no_system r.messages)
