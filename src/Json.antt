-- ===== src/Json.antt =====
-- JSON values as JSON.parse returns them. Numbers are the non-negative integers that helm's own
-- records hold (sequence numbers, counts, versions, milliseconds).
use ainumbers_helm.Prelude.{
  ℕ, zero, String, Bool, true, false, Option, none, some, str_eq, if◌then◌else◌,
}

mutual
  pub data Json : Type 0 where
    null : Json
    bool : Bool → Json
    num : ℕ → Json
    str : String → Json
    arr : Items → Json
    obj : Fields → Json

  pub data Items : Type 0 where
    nil : Items
    cons : Json → Items → Items

  pub data Fields : Type 0 where
    end : Fields
    field : String → Json → Fields → Fields

-- !!value
unfoldable pub is_truthy : Json → Bool
is_truthy null = false
is_truthy (bool b) = b
is_truthy (num zero) = false
is_truthy (str s) = if str_eq s "" then false else true
is_truthy _ = true

-- o[k]; none is undefined
unfoldable pub get_field : Fields → String → Option Json
get_field end k = none
get_field (field j v fs) k = let rest = get_field fs k in if str_eq j k then some v else rest

-- o[k] = v: a key that is there keeps its place
unfoldable pub set_field : Fields → String → Json → Fields
set_field end k v = field k v end
set_field (field j w fs) k v =
    let rest = set_field fs k v in if str_eq j k then field j v fs else field j w rest

-- { ...base, ...more }
unfoldable pub spread : Fields → Fields → Fields
unfolding set_field
spread base end = base
spread base (field k v more) = spread (set_field base k v) more
