-- ===== src/Prelude/Lists.antt =====
-- Lists measured and indexed by native numbers, under the library's names, and byte vectors.
use Prim.Native.Nat.{ℕ, zero, suc, ◌+◌, ◌-◌, ◌<◌}
use mathlib.Core.Path.{◌≡◌, refl, ap}
use mathlib.Core.List.{List, [], ◌∷◌, ◌++◌}
use mathlib.Core.Option.{Option, none, some}
use native.Mathlib.Omega.{arith}

-- A `std::vector<unsigned char>`.
abbrev pub Bytes : Type 0
Bytes = List ℕ

module _ {ℓ} {A : Type ℓ} where
  abbrev pub length : List A → ℕ
  length [] = 0
  length (x ∷ xs) = suc (length xs)

  abbrev pub get_elem? : List A → ℕ → Option A
  get_elem? [] i = none
  get_elem? (x ∷ xs) zero = some x
  get_elem? (x ∷ xs) (suc i) = get_elem? xs i

  pub get_elem?-some : (xs : List A) (i : ℕ) → i < length xs → (x : A) × (get_elem? xs i ≡ some x)
  get_elem?-some [] i lt = absurd (omega arith)
  get_elem?-some (x ∷ xs) zero lt = (x, refl)
  get_elem?-some (x ∷ xs) (suc i) lt = get_elem?-some xs i (omega arith)

  abbrev pub drop : ℕ → List A → List A
  drop zero xs = xs
  drop (suc n) [] = []
  drop (suc n) (x ∷ xs) = drop n xs

  pub length-append : (xs ys : List A) → length (xs ++ ys) ≡ length xs + length ys
  length-append [] ys = omega arith
  length-append (x ∷ xs) ys = omega (arith, length-append xs ys)

  pub length_snoc : (xs : List A) (y : A) → length (xs ++ y ∷ []) ≡ length xs + 1
  length_snoc [] y = omega arith
  length_snoc (x ∷ xs) y = omega (arith, length_snoc xs y)

  pub length-drop : (n : ℕ) (xs : List A) → length (drop n xs) ≡ length xs - n
  length-drop zero xs = omega arith
  length-drop (suc n) [] = omega arith
  length-drop (suc n) (x ∷ xs) = omega (arith, length-drop n xs)

-- Each element has the property.
abbrev pub All {ℓ κ} : {A : Type ℓ} → (A → Type κ) → List A → Type κ
All P [] = Unit
All P (x ∷ xs) = P x × All P xs

pub All-append {ℓ κ} :
    {A : Type ℓ} (P : A → Type κ) (xs ys : List A) → All P xs → All P ys → All P (xs ++ ys)
All-append P [] ys hx hy = hy
All-append P (x ∷ xs) ys hx hy = (hx.0, All-append P xs ys hx.1 hy)

-- Each element is an `unsigned char`.
abbrev pub IsBytes : Bytes → Type 0
IsBytes = All (λ b. b < 256)

-- Two lists are related place by place.
abbrev pub All₂ {ℓ κ} : {A : Type ℓ} {B : Type κ} → (A → B → Type 0) → List A → List B → Type 0
All₂ R [] [] = Unit
All₂ R (x ∷ xs) (y ∷ ys) = R x y × All₂ R xs ys
All₂ R [] (y ∷ ys) = ⊥
All₂ R (x ∷ xs) [] = ⊥

-- An element that is changed.
abbrev pub change_at {ℓ} : {A : Type ℓ} → ℕ → (A → A) → List A → List A
change_at index f [] = []
change_at zero f (x ∷ xs) = f x ∷ xs
change_at (suc index) f (x ∷ xs) = x ∷ change_at index f xs

pub get_elem?-change_at {ℓ} :
    {A : Type ℓ} (index : ℕ) (f : A → A) (xs : List A) (x : A)
    → get_elem? xs index ≡ some x
    → get_elem? (change_at index f xs) index ≡ some (f x)
get_elem?-change_at index f [] x e = absurd (ground arith)
get_elem?-change_at zero f (y ∷ xs) x e = ground arith
get_elem?-change_at (suc index) f (y ∷ xs) x e = get_elem?-change_at index f xs x e

pub length-change_at {ℓ} :
    {A : Type ℓ} (index : ℕ) (f : A → A) (xs : List A) → length (change_at index f xs) ≡ length xs
length-change_at index f [] = refl
length-change_at zero f (x ∷ xs) = refl
length-change_at (suc index) f (x ∷ xs) = ap suc (length-change_at index f xs)

pub All-change_at {ℓ κ} :
    {A : Type ℓ} (index : ℕ) (P : A → Type κ) (f : A → A) (xs : List A)
    → ((x : A) → P x → P (f x))
    → All P xs
    → All P (change_at index f xs)
All-change_at index P f [] keeps h = tt
All-change_at zero P f (x ∷ xs) keeps h = (keeps x h.0, h.1)
All-change_at (suc index) P f (x ∷ xs) keeps h = (h.0, All-change_at index P f xs keeps h.1)
