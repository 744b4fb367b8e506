-- ===== src/Helper/Fields.antt =====
-- pkg/helper/server_helper.go: `MapToStruct`. Types, values and their conversion are reflect's, and
-- are parameters; a value of the map is none where the map holds nil.
pub mod Outcome
use gim.Base.{
  ℕ, String, ◌≡◌, ◌≢◌, refl, Bool, true, false, Option, none, some, List, [], ◌∷◌, ◌==◌, string_eq,
  if◌then◌else◌, arith, Option-cases, Bool-cases, inl, inr,
}
use gim.Base.Dict.{Dict, lookup}

-- `Convert` may panic although the types are convertible, as for a slice that is too short for an
-- array: it gives none then.
pub record Reflect : Type 1 where
  pub Kind : Type 0
  pub Value : Type 0
  pub type_of : Value → Kind
  pub convertible_to : Kind → Kind → Bool
  pub convert : Value → Kind → Option Value

module _ (R : Reflect) where
  -- A field of the struct: its name and type, whether it can be set, and its value.
  pub record Field : Type 0 where
    pub name : String
    pub kind : R.Kind
    pub can_set : Bool
    pub held : R.Value

  -- The fields after a return, or as a panic leaves them.
  pub data Mapped : Type 0 where
    returns : List Field → Mapped
    panics : List Field → Mapped

  -- What the map has for a field: no key, nil, or a value.
  pub data Entry : Type 0 where
    no_key nil : Entry
    value : R.Value → Entry

module _ {R : Reflect} where
  abbrev entry_of : Option (Option R.Value) → Entry R
  entry_of none = no_key
  entry_of (some none) = nil
  entry_of (some (some v)) = value v

  converted : Field R → Option R.Value → Option (Field R)
  converted f none = none
  converted f (some v) = some (record f { held = v })

  -- `reflect.ValueOf(nil)` has no type: to ask for it panics.
  set_from : Entry R → Field R → Option (Field R)
  unfolding converted
  set_from no_key f = some f
  set_from nil f = if f.can_set then none else some f
  set_from (value v) f =
      if f.can_set
      then (if R.convertible_to (R.type_of v) f.kind
          then converted f (R.convert v f.kind)
          else some f)
      else some f

  unfoldable pub set_field : Dict String (Option R.Value) → Field R → Option (Field R)
  unfolding set_from
  set_field m f = set_from (entry_of (lookup f.name m)) f

  before : Field R → Mapped R → Mapped R
  before f (returns fs) = returns (f ∷ fs)
  before f (panics fs) = panics (f ∷ fs)

  -- A panic leaves the fields from this one on as they were.
  map_field : Option (Field R) → Field R → List (Field R) → Mapped R → Mapped R
  unfolding before
  map_field none f fs rest = panics (f ∷ fs)
  map_field (some g) f fs rest = before g rest

  -- The loop over the fields of the struct that `s` points to, in their order.
  unfoldable pub map_to_struct : Dict String (Option R.Value) → List (Field R) → Mapped R
  unfolding set_field map_field
  map_to_struct m [] = returns []
  map_to_struct m (f ∷ fs) = map_field (set_field m f) f fs (map_to_struct m fs)
