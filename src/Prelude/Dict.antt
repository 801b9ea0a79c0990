-- ===== src/Prelude/Dict.antt =====
-- A JavaScript Map (or a table with a TEXT primary key) as an association list: `set` overwrites a
-- key where it stands and puts a new key at the end, which is the order of iteration.
use Prim.Native.String.{String}
use mathlib.Core.Path.{◌≡◌, refl}
use mathlib.Core.Option.{Option, none, some}
use mathlib.Core.List.{List, [], ◌∷◌}
use native.Mathlib.Omega.{arith}
use text.Mathlib.Text.{◌==◌ as str_eq}
use text.Mathlib.TextEquality.{eq_iff}
use ainumbers_helm.Prelude.Tests.{if◌then◌else◌}

abbrev pub Dict {ℓ} : Type ℓ → Type ℓ
Dict V = List (String × V)

module _ {ℓ} {V : Type ℓ} where
  unfoldable pub get : Dict V → String → Option V
  get [] k = none
  get ((j, v) ∷ d) k = let rest = get d k in if str_eq j k then some v else rest

  unfoldable pub set : Dict V → String → V → Dict V
  set [] k v = (k, v) ∷ []
  set ((j, w) ∷ d) k v = let rest = set d k v in if str_eq j k then (j, v) ∷ d else (j, w) ∷ rest

  unfoldable pub delete : Dict V → String → Dict V
  delete [] k = []
  delete ((j, w) ∷ d) k = let rest = delete d k in if str_eq j k then rest else (j, w) ∷ rest

  pub get-set :
      (d : Dict V) (k : String) (v : V) (j : String)
      → get (set d k v) j ≡ (if str_eq k j then some v else get d j)
  unfolding get set
  get-set [] k v j = refl
  get-set ((i, w) ∷ d) k v j = ground (arith, eq_iff k j, eq_iff i k, eq_iff i j, get-set d k v j)

  pub get-delete :
      (d : Dict V) (k j : String) → get (delete d k) j ≡ (if str_eq k j then none else get d j)
  unfolding get delete
  get-delete [] k j = ground arith
  get-delete ((i, w) ∷ d) k j = ground (arith, eq_iff k j, eq_iff i k, eq_iff i j, get-delete d k j)

pub ruleset dict_laws = (get-set, get-delete)
