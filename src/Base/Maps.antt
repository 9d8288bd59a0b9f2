-- ===== src/Base/Maps.antt =====
-- Go's `map[string]V`, listed in the order in which a `range` loop visits it.
use Prim.Native.String.{String}
use mathlib.Core.Path.{◌≡◌, refl}
use mathlib.Core.Option.{Option, none, some}
use mathlib.Core.List.{List, [], ◌∷◌}
use native.Mathlib.Omega.{arith}
use kubernetes_cpi.Base.Tests.{◌==◌, eq_iff, if◌then◌else◌}

abbrev pub Dict {ℓ} : Type ℓ → Type ℓ
Dict V = List (String × V)

module _ {ℓ} {V : Type ℓ} where
  unfoldable pub lookup : String → Dict V → Option V
  lookup wanted [] = none
  lookup wanted ((key, value) ∷ rest) = if key == wanted then some value else lookup wanted rest

  -- delete(m, k)
  unfoldable pub erase : String → Dict V → Dict V
  erase wanted [] = []
  erase wanted ((key, value) ∷ rest) =
      let kept = erase wanted rest in if key == wanted then kept else (key, value) ∷ kept

  pub lookup-erase :
      (gone wanted : String) (m : Dict V)
      → lookup wanted (erase gone m) ≡ (if gone == wanted then none else lookup wanted m)
  unfolding lookup erase
  lookup-erase gone wanted [] = ground arith
  lookup-erase gone wanted ((key, value) ∷ rest) =
      ground (
        arith,
        eq_iff gone wanted,
        eq_iff key gone,
        eq_iff key wanted,
        lookup-erase gone wanted rest,
      )

  -- Deleting a key that a map lacks leaves it.
  pub erase_absent : (gone : String) (m : Dict V) → lookup gone m ≡ none → erase gone m ≡ m
  unfolding lookup erase
  erase_absent gone [] h = refl
  erase_absent gone ((key, value) ∷ rest) h = ground (arith, erase_absent gone rest)

  -- m[k] = v, in place if the key is there
  unfoldable pub insert : String → V → Dict V → Dict V
  insert new put [] = (new, put) ∷ []
  insert new put ((key, value) ∷ rest) =
      let after = insert new put rest in
      if key == new then (new, put) ∷ rest else (key, value) ∷ after

  pub erase-insert :
      (new : String) (put : V) (m : Dict V) → lookup new m ≡ none → erase new (insert new put m) ≡ m
  unfolding lookup insert erase
  erase-insert new put [] h = ground (arith, eq_iff new new)
  erase-insert new put ((key, value) ∷ rest) h =
      ground (arith, eq_iff new new, erase-insert new put rest)

  pub lookup-insert :
      (new wanted : String) (put : V) (m : Dict V)
      → lookup wanted (insert new put m) ≡ (if new == wanted then some put else lookup wanted m)
  unfolding lookup insert
  lookup-insert new wanted put [] = refl
  lookup-insert new wanted put ((key, value) ∷ rest) = ground (
    arith,
    lookup-insert new wanted put rest,
    eq_iff key new,
    eq_iff key wanted,
    eq_iff new wanted,
  )

abbrev pub dict_of {ℓ} : {V : Type ℓ} → Option (Dict V) → Dict V
dict_of none = []
dict_of (some m) = m
