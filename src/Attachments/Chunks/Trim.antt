-- ===== src/Attachments/Chunks/Trim.antt =====
-- `trim` in `chunkText` of src/worker/chat-storage.ts.
use openvac_web.Script.{is_space}
use openvac_web.Attachments.Chunks.{leading, is_empty, trim_end, trim}
use openvac_web.Prelude.{
  ℕ, zero, suc, ◌+◌, ◌-◌, ◌≤◌, ◌<◌, ◌≡◌, refl, ap, ◌∙◌, inl, inr, false, ◌&&◌, some, List, [], ◌∷◌,
  arith, Bool-cases, length, take, drop, get_elem?, length-drop, get_elem?-drop,
}

-- No white space that is not at an end is cut off.
trim_end-cover :
    (xs : List ℕ) (i : ℕ) {c : ℕ}
    → get_elem? xs i ≡ some c
    → is_space c ≡ false
    → i < length (trim_end xs)
trim_end-cover [] i e h = cc
trim_end-cover (x ∷ xs) zero {c} e h =
    let same : x ≡ c = cc in let solid : is_space x ≡ false = rw same h in ground (arith, solid)
trim_end-cover (x ∷ xs) (suc i) {c} e h =
    let deep = trim_end-cover xs i e h in
    let rest_there : is_empty (trim_end xs) ≡ false = nonempty (trim_end xs) i deep in
    rw (rest_there) (omega (arith, deep))
  where
    nonempty : (ys : List ℕ) (i : ℕ) → i < length ys → is_empty ys ≡ false
    nonempty [] i h = absurd (omega arith)
    nonempty (y ∷ ys) i h = refl

trim_end-prefix : (xs : List ℕ) → trim_end xs ≡ take (length (trim_end xs)) xs
trim_end-prefix [] = refl
trim_end-prefix (x ∷ xs) = elim (Bool-cases (is_empty (trim_end xs) && is_space x)) [
  | inl cut ↦ rw cut refl
  | inr kept ↦ rw kept (ap (λ ys. x ∷ ys) (trim_end-prefix xs))
]

length-trim_end : (xs : List ℕ) → length (trim_end xs) ≤ length xs
length-trim_end [] = omega arith
length-trim_end (x ∷ xs) = ground (arith, length-trim_end xs)

leading-le : (xs : List ℕ) → leading xs ≤ length xs
leading-le [] = omega arith
leading-le (x ∷ xs) = ground (arith, leading-le xs)

leading-cover :
    (xs : List ℕ) (i : ℕ) {c : ℕ} → get_elem? xs i ≡ some c → is_space c ≡ false → leading xs ≤ i
leading-cover [] i e h = cc
leading-cover (x ∷ xs) zero {c} e h =
    let same : x ≡ c = cc in let solid : is_space x ≡ false = rw same h in ground (arith, solid)
leading-cover (x ∷ xs) (suc i) e h = ground (arith, leading-cover xs i e h)

-- What is left after the trim is one piece of the text,
pub trim-prefix : (raw : List ℕ) → trim raw ≡ take (length (trim raw)) (drop (leading raw) raw)
trim-prefix raw = trim_end-prefix (drop (leading raw) raw)

pub length-trim : (raw : List ℕ) → leading raw + length (trim raw) ≤ length raw
length-trim raw =
    omega (
      arith,
      length-trim_end (drop (leading raw) raw),
      length-drop (leading raw) raw,
      leading-le raw,
    )

-- and all that is not white space is in it.
pub trim-cover :
    (raw : List ℕ) (i : ℕ) {c : ℕ}
    → get_elem? raw i ≡ some c
    → is_space c ≡ false
    → (leading raw ≤ i) × (i < leading raw + length (trim raw))
trim-cover raw i {c} e h =
    let l = leading-cover raw i e h in
    let at : leading raw + (i - leading raw) ≡ i = omega (arith, l) in
    let e' : get_elem? (drop (leading raw) raw) (i - leading raw) ≡ some c =
      get_elem?-drop (leading raw) (i - leading raw) raw ∙ (rw at e) in
    (l, omega (arith, l, trim_end-cover (drop (leading raw) raw) (i - leading raw) e' h))
