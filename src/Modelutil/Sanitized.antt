-- ===== src/Modelutil/Sanitized.antt =====
-- modelutil/modelutil.go: what SanitizeModel removes.
use Prim.Native.Char.{Char}
use blind_llm_eyes.Base.{
  ◌≡◌, refl, ap, ◌∙◌, true, false, none, some, List, [], ◌∷◌, ◌++◌, arith, Bool-cases, Option-cases,
  inl, inr, ◌⊎◌,
}
use blind_llm_eyes.Modelutil.{
  is_open, is_close, split_last_open, strip_close, contains_bracket, sanitize,
}

split_no_open : (cs : List Char) → contains_bracket cs ≡ false → split_last_open cs ≡ none
unfolding split_last_open contains_bracket
split_no_open [] h = refl
split_no_open (c ∷ cs) h = ground (arith, split_no_open cs (ground arith))

-- A closing bracket is no open one.
close_is_not_open : (c : Char) → is_close c ≡ true → is_open c ≡ false
close_is_not_open c h = ground arith

split_close :
    (inner : List Char) (c : Char)
    → contains_bracket inner ≡ false
    → is_close c ≡ true
    → split_last_open (inner ++ (c ∷ [])) ≡ none
unfolding split_last_open contains_bracket
split_close [] c h k = ground (arith, close_is_not_open c k)
split_close (x ∷ inner) c h k = ground (arith, split_close inner c (ground arith) k)

split_group :
    (name rest : List Char) (o : Char)
    → is_open o ≡ true
    → split_last_open rest ≡ none
    → split_last_open (name ++ (o ∷ rest)) ≡ some (name, rest)
unfolding split_last_open
split_group [] rest o h k = ground arith
split_group (x ∷ name) rest o h k = ground (arith, split_group name rest o h k)

strip_end : (cs : List Char) (c : Char) → is_close c ≡ true → strip_close (cs ++ (c ∷ [])) ≡ some cs
unfolding strip_close
strip_end [] c h = ground arith
strip_end (x ∷ []) c h = ground arith
strip_end (x ∷ (y ∷ cs)) c h = ground (arith, strip_end (y ∷ cs) c h)

append_group :
    (name inner : List Char) (o c : Char)
    → name ++ (o ∷ (inner ++ (c ∷ []))) ≡ (name ++ (o ∷ inner)) ++ (c ∷ [])
append_group [] inner o c = refl
append_group (x ∷ name) inner o c = ap (◌∷◌ x) (append_group name inner o c)

-- SanitizeModel takes one bracket group without brackets inside from the end of the name.
pub sanitize_group :
    (name inner : List Char) (o c : Char)
    → is_open o ≡ true
    → is_close c ≡ true
    → contains_bracket inner ≡ false
    → sanitize (name ++ (o ∷ (inner ++ (c ∷ [])))) ≡ name
unfolding sanitize
sanitize_group name inner o c h k plain = ground (
  arith,
  ap strip_close (append_group name inner o c) ∙ strip_end (name ++ (o ∷ inner)) c k,
  split_group name (inner ++ (c ∷ [])) o h (split_close inner c plain k),
  strip_end inner c k,
)

strip_close-some :
    (m r : List Char)
    → strip_close m ≡ some r
    → (c : Char) × (m ≡ r ++ (c ∷ [])) × (is_close c ≡ true)
unfolding strip_close
strip_close-some [] r h = absurd (ground arith)
strip_close-some (c ∷ []) r h = elim (Bool-cases (is_close c)) [
  | inl k ↦ (c, ground arith, k)
  | inr k ↦ absurd (ground arith)
]
strip_close-some (c ∷ (d ∷ cs)) r h = elim (Option-cases (strip_close (d ∷ cs))) [
  | inl e ↦ absurd (ground arith)
  | inr (q, e) ↦ let t = strip_close-some (d ∷ cs) q e in (t.0, ground (arith, t.1), t.2)
]

split_some :
    (m before behind : List Char)
    → split_last_open m ≡ some (before, behind)
    → (o : Char) × (m ≡ before ++ (o ∷ behind)) × (is_open o ≡ true)
unfolding split_last_open
split_some [] b a h = absurd (ground arith)
split_some (c ∷ cs) b a h = elim (Option-cases (split_last_open cs)) [
  | inl e ↦ elim (Bool-cases (is_open c)) [
    | inl k ↦ (c, ground arith, k)
    | inr k ↦ absurd (ground arith)
  ]
  | inr (q, e) ↦ let t = split_some cs q.0 q.1 e in (t.0, ground (arith, t.1), t.2)
]

-- Where SanitizeModel changes a name, the name is the result followed by one bracket group without
-- brackets inside.
pub sanitize_removes_group :
    (m : List Char)
    → (sanitize m ≡ m)
      ⊎ ((inner : List Char) × (o : Char) × (c : Char) × (m
            ≡ sanitize m ++ (o ∷ (inner ++ (c ∷ []))))
          × (is_open o ≡ true)
          × (is_close c ≡ true)
          × (contains_bracket inner ≡ false))
unfolding sanitize
sanitize_removes_group m = elim (Option-cases (strip_close m)) [
  | inl e ↦ inl (ground arith)
  | inr (r, e) ↦ elim (Option-cases (split_last_open m)) [
    | inl f ↦ inl (ground arith)
    | inr (q, f) ↦ elim (Option-cases (strip_close q.1)) [
      | inl g ↦ inl (ground arith)
      | inr (inner, g) ↦ elim (Bool-cases (contains_bracket inner)) [
        | inl bad ↦ inl (ground arith)
        | inr plain ↦
            let t = split_some m q.0 q.1 f in
            let u = strip_close-some q.1 inner g in
            inr (inner, t.0, u.0, ground (arith, t.1, u.1), t.2, u.2, plain)
      ]
    ]
  ]
]
