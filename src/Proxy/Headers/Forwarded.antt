-- ===== src/Proxy/Headers/Forwarded.antt =====
-- Which headers of a client reach the upstream, and with which values.
use Prim.Native.String.{◌++◌ as append}
use mathlib.Core.List.{append-nil, append_assoc}
use blind_llm_eyes.Base.{
  subst, ap, ◌&&◌, not, if◌then◌else◌, ◌++◌, List, [], ◌∷◌, refl, true, false, ◌≡◌, sym, ◌∙◌,
  String, str_eq, eq_iff, Bool, arith, Bool-cases, inl, inr,
}
use blind_llm_eyes.Proxy.Headers.{
  upstream_headers, should_strip_header, Header, add, set, values, has_key, IsMap, add_values,
  copy_headers,
}

str_eq_sym : (s t : String) → str_eq s t ≡ str_eq t s
str_eq_sym s t = elim (Bool-cases (str_eq s t)) [
  | inl e ↦ rw ((eq_iff s t).0 e)
  | inr e ↦ elim (Bool-cases (str_eq t s)) [ inl f ↦ rw ((eq_iff t s).0 f) | inr f ↦ e ∙ sym f ]
]

same_key : (a k k' : String) → str_eq a k ≡ true → str_eq a k' ≡ str_eq k k'
same_key a k k' h = rw ((eq_iff a k).0 h)

other_key : (a k k' : String) → str_eq a k ≡ false → str_eq a k' ≡ true → str_eq k k' ≡ false
other_key a k k' h e = str_eq_sym k k' ∙ (sym (same_key a k' k e) ∙ h)

if_same {ℓ} : {A : Type ℓ} (b : Bool) (x : A) → (if b then x else x) ≡ x
if_same true x = refl
if_same false x = refl

values-add :
    (k k' v : String) (h : Header)
    → values k' (add k v h) ≡ (if str_eq k k' then values k' h ++ (v ∷ []) else values k' h)
unfolding values add
values-add k k' v [] = refl
values-add k k' v ((a, vs) ∷ h) = elim (Bool-cases (str_eq a k)) [
  | inl e ↦ elim (Bool-cases (str_eq k k')) [
    | inl f ↦ rw (e, same_key a k k' e, f) refl
    | inr f ↦ rw (e, same_key a k k' e, f) refl
  ]
  | inr e ↦ elim (Bool-cases (str_eq a k')) [
    | inl f ↦ rw (e, f, other_key a k k' e f) refl
    | inr f ↦ rw (e, f) (values-add k k' v h)
  ]
]

values-set :
    (k k' v : String) (h : Header)
    → values k' (set k v h) ≡ (if str_eq k k' then v ∷ [] else values k' h)
unfolding values set
values-set k k' v [] = refl
values-set k k' v ((a, vs) ∷ h) = elim (Bool-cases (str_eq a k)) [
  | inl e ↦ elim (Bool-cases (str_eq k k')) [
    | inl f ↦ rw (e, same_key a k k' e, f) refl
    | inr f ↦ rw (e, same_key a k k' e, f) refl
  ]
  | inr e ↦ elim (Bool-cases (str_eq a k')) [
    | inl f ↦ rw (e, f, other_key a k k' e f) refl
    | inr f ↦ rw (e, f) (values-set k k' v h)
  ]
]

values-add_values :
    (k k' : String) (vs : List String) (h : Header)
    → values k' (add_values k vs h) ≡ (if str_eq k k' then values k' h ++ vs else values k' h)
unfolding add_values
values-add_values k k' [] h = elim (Bool-cases (str_eq k k')) [
  | inl e ↦ rw e (sym (append-nil (values k' h)))
  | inr e ↦ rw e refl
]
values-add_values k k' (v ∷ vs) h = elim (Bool-cases (str_eq k k')) [
  | inl e ↦ ground (
    arith,
    e,
    values-add_values k k' vs (add k v h),
    values-add k k' v h,
    append_assoc (values k' h) (v ∷ []) vs,
  )
  | inr e ↦ ground (arith, e, values-add_values k k' vs (add k v h), values-add k k' v h)
]

values-no_key : (k : String) (h : Header) → has_key k h ≡ false → values k h ≡ []
unfolding values has_key
values-no_key k [] e = refl
values-no_key k ((a, vs) ∷ h) e = ground (arith, values-no_key k h)

-- Copying the headers keeps the values of every key that is not stripped, behind those that were
-- there.
pub values-copy_headers :
    (strip : String → Bool) (k : String) (src dst : Header)
    → IsMap src
    → values k (copy_headers strip src dst)
      ≡ (if strip k then values k dst else values k dst ++ values k src)
unfolding copy_headers values IsMap
values-copy_headers strip k [] dst h = elim (Bool-cases (strip k)) [
  | inl e ↦ rw e refl
  | inr e ↦ rw e (sym (append-nil (values k dst)))
]
values-copy_headers strip k ((a, vs) ∷ src) dst h = elim (Bool-cases (str_eq a k)) [
  | inl e ↦
      let p = (eq_iff a k).0 e in
      let none_left = values-no_key k src (subst (λ x. has_key x src ≡ false) p h.0) in
      elim (Bool-cases (strip a)) [
        | inl s ↦
            let t : strip k ≡ true = sym (ap strip p) ∙ s in
            rw (s, t) (values-copy_headers strip k src dst h.1 ∙ rw t refl)
        | inr s ↦
            let t : strip k ≡ false = sym (ap strip p) ∙ s in
            rw (s, t, e)
              (values-copy_headers strip k src (add_values a vs dst) h.1
                ∙ rw (t, none_left, values-add_values a k vs dst, e)
                    (append-nil (values k dst ++ vs)))
      ]
  | inr e ↦ elim (Bool-cases (strip a)) [
    | inl s ↦ rw (s, e) (values-copy_headers strip k src dst h.1)
    | inr s ↦
        rw (s, e)
          (values-copy_headers strip k src (add_values a vs dst) h.1
            ∙ rw (values-add_values a k vs dst, e) refl)
  ]
]

-- The upstream gets, of every key, the values that the client sent, but of the keys that are held
-- back; with a key of the upstream's own, its Authorization is that key, and only that.
pub values-upstream_headers :
    (api_key k : String) (from : Header)
    → IsMap from
    → let keyed = not (str_eq api_key "") in
      values k (upstream_headers api_key from) ≡ (
        if keyed && str_eq "Authorization" k
        then append "Bearer " api_key ∷ []
        else if should_strip_header k keyed
        then []
        else values k from)
unfolding upstream_headers values
values-upstream_headers api_key k from h = elim (Bool-cases (str_eq api_key "")) [
  | inl e ↦ rw e (values-copy_headers (λ k. should_strip_header k false) k from [] h)
  | inr e ↦ rw e (
      values-set "Authorization" k (append "Bearer " api_key)
        (copy_headers (λ k. should_strip_header k true) from [])
      ∙ rw (values-copy_headers (λ k. should_strip_header k true) k from [] h) refl)
]
