-- ===== src/Perception/Moondream/Heads.antt =====
-- Grouped-query attention on torch without it (_sdpa_gqa_compat of perception/moondream_client.py).
use rover_mind.Prelude.{
  ℕ, ◌+◌, subst, ◌*◌, ◌/◌, ◌<◌, ◌≡◌, refl, sym, ap, ◌∙◌, ◌%◌, ◌==◌, Bool-cases, inl, inr, true,
  false, arith,
}
use native.Mathlib.Nat.{div-one, div_self, div-add-mod'}
use rover_mind.Perception.Moondream.{Tensors, expanded, sdpa_gqa_compat}

nonzero : (n : ℕ) → 0 < n → (n == 0) ≡ false
nonzero n h = ground arith

equal_lem : (a b : ℕ) → (a == b) ≡ true → a ≡ b
equal_lem a b h = ground arith

div_equal : (a b : ℕ) → 0 < b → b ≡ a → a / b ≡ 1
div_equal a b some_b same = ap (λ x. x / b) (sym same) ∙ div_self some_b

quotient : (a b : ℕ) → a % b ≡ 0 → a / b * b ≡ a
quotient a b divides =
    let whole : a / b * b + 0 ≡ a = subst (λ r. a / b * b + r ≡ a) divides (div-add-mod' a b) in
    omega arith

module _ {T H : Type 0} (torch : Tensors T) (head : T → ℕ → H) where
  open torch use {heads, repeat_interleave}

  -- As torch documents it: each head is repeated in place.
  abbrev pub Repeats : Type 0
  Repeats =
      (n : ℕ) (t : T)
      → (heads (repeat_interleave n t) ≡ n * heads t)
        × ((h : ℕ) → h < n * heads t → head (repeat_interleave n t) h ≡ head t (h / n))

  -- Every head of the query has a head of the tensor, that of its group.
  abbrev pub Serves : ℕ → ℕ → T → T → Type 0
  Serves hq n t t' = (heads t' ≡ hq) × ((h : ℕ) → h < hq → head t' h ≡ head t (h / n))

  Serves-self : (hq : ℕ) (t : T) → 0 < heads t → heads t ≡ hq → Serves hq (hq / heads t) t t
  Serves-self hq t some_heads same = (
    same,
    λ h less.
        ap (head t) (sym (ap (λ n. h / n) (div_equal hq (heads t) some_heads same) ∙ div-one h)),
  )

  Serves-repeated :
      Repeats
      → (hq hk : ℕ) (t : T) → heads t ≡ hk
      → hq % hk ≡ 0
      → Serves hq (hq / hk) t (repeat_interleave (hq / hk) t)
  Serves-repeated law hq hk t same divides =
      let whole : hq / hk * heads t ≡ hq = ap (λ n. hq / hk * n) same ∙ quotient hq hk divides in
      (let (counted, placed) = law (hq / hk) t in
        (counted ∙ whole, λ h less. placed h (subst (λ n. h < n) (sym whole) less)))

  expanded-Serves :
      Repeats
      → (query key value : T) → 0 < heads key
      → heads value ≡ heads key
      → heads query % heads key ≡ 0
      → let n = heads query / heads key in
        let (key', value') = expanded torch query key value in
        Serves (heads query) n key key' × Serves (heads query) n value value'
  unfolding expanded
  expanded-Serves law query key value some_heads same divides =
      elim (Bool-cases (heads query == heads key)) [
        | inl equal ↦
            rw (nonzero (heads key) some_heads, equal)
              (let one_each = equal_lem (heads query) (heads key) equal in
                (
                  Serves-self (heads query) key some_heads (sym one_each),
                  subst (λ k. Serves (heads query) (heads query / k) value value) same
                      (Serves-self (heads query) value (omega arith) (same ∙ sym one_each)),
                ))
        | inr differ ↦
            rw (nonzero (heads key) some_heads, differ)
              (
                Serves-repeated law (heads query) (heads key) key refl divides,
                Serves-repeated law (heads query) (heads key) value same divides,
              )
      ]

  -- Where torch repeats heads as it documents, and the number of the key's heads, at least one and as
  -- many as the value has, divides that of the query: the attention is called on a key and a value with
  -- a head for each head of the query, and head h is that of the group, h // (Hq // Hkv).
  pub sdpa_gqa_compat-Serves :
      {A : Type 0}
      → Repeats
      → (orig : T → T → T → A) (query key value : T) → 0 < heads key
      → heads value ≡ heads key
      → heads query % heads key ≡ 0
      → let n = heads query / heads key in
        (key' : T) × (value' : T) × (sdpa_gqa_compat torch orig query key value true
          ≡ orig query key' value')
        × Serves (heads query) n key key'
        × Serves (heads query) n value value'
  unfolding sdpa_gqa_compat
  sdpa_gqa_compat-Serves law orig query key value some_heads same divides =
      let (key', value') = expanded torch query key value in
      let (key_serves, value_serves) =
        expanded-Serves law query key value some_heads same divides in
      (key', value', refl, key_serves, value_serves)
