-- ===== src/Mr/Worker/Lists.antt =====
-- Segments of a list.
use mit_distribution.Base.{◌≡◌, refl, List, [], ◌∷◌, ◌++◌, get_elem?, take, drop, length, map, some}

module _ {ℓ} {A : Type ℓ} where
  pub get_elem?-append_head :
      (pre rest : List A) (a : A) → get_elem? (pre ++ a ∷ rest) (length pre) ≡ some a
  get_elem?-append_head [] rest a = refl
  get_elem?-append_head (x ∷ pre) rest a = get_elem?-append_head pre rest a

  pub drop-append : (pre rest : List A) → drop (length pre) (pre ++ rest) ≡ rest
  drop-append [] rest = refl
  drop-append (x ∷ pre) rest = drop-append pre rest

  pub take-append : (seg rest : List A) → take (length seg) (seg ++ rest) ≡ seg
  take-append [] rest = refl
  take-append (x ∷ seg) rest = cc (take-append seg rest)

  pub append_assoc : (xs ys zs : List A) → (xs ++ ys) ++ zs ≡ xs ++ (ys ++ zs)
  append_assoc [] ys zs = refl
  append_assoc (x ∷ xs) ys zs = cc (append_assoc xs ys zs)

  pub append-nil : (xs : List A) → xs ++ [] ≡ xs
  append-nil [] = refl
  append-nil (x ∷ xs) = cc (append-nil xs)

pub map-append {ℓ κ} :
    {A : Type ℓ} {B : Type κ} (f : A → B) (xs ys : List A) → map f (xs ++ ys) ≡ map f xs ++ map f ys
map-append f [] ys = refl
map-append f (x ∷ xs) ys = cc (map-append f xs ys)
