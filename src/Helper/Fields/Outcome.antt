-- ===== src/Helper/Fields/Outcome.antt =====
-- pkg/helper/server_helper.go: what `MapToStruct` does to each field, and where it panics.
use gim.Base.{
  String, ◌≡◌, refl, ap, Bool, true, false, Option, none, some, List, [], ◌∷◌, ◌++◌, if◌then◌else◌,
  string_eq,
}
use gim.Base.Dict.{Dict, lookup}
use gim.Helper.Fields.{
  Reflect, Field, Mapped, returns, panics, entry_of, converted, set_from, set_field, before,
  map_field, map_to_struct,
}

module _ {R : Reflect} (m : Dict String (Option R.Value)) where
  -- A field is set to the converted value of the map if it can be set and the types fit, and
  -- otherwise it is kept.
  pub data FieldMapped (f : Field R) : Field R → Type 0 where
    absent : lookup f.name m ≡ none → FieldMapped f f
    fixed : f.can_set ≡ false → FieldMapped f f
    unfit :
        (v : R.Value)
        → lookup f.name m ≡ some (some v)
        → R.convertible_to (R.type_of v) f.kind ≡ false
        → FieldMapped f f
    set_to :
        (v w : R.Value)
        → lookup f.name m ≡ some (some v)
        → f.can_set ≡ true
        → R.convertible_to (R.type_of v) f.kind ≡ true
        → R.convert v f.kind ≡ some w
        → FieldMapped f (record f { held = w })

  -- A field that can be set, and for which the map holds nil or a value that does not convert
  -- although its type does.
  pub data IsStuck (f : Field R) : Type 0 where
    nil_held : lookup f.name m ≡ some none → f.can_set ≡ true → IsStuck f
    unconverted :
        (v : R.Value)
        → lookup f.name m ≡ some (some v)
        → f.can_set ≡ true
        → R.convertible_to (R.type_of v) f.kind ≡ true
        → R.convert v f.kind ≡ none
        → IsStuck f

  pub data AllMapped : List (Field R) → List (Field R) → Type 0 where
    end : AllMapped [] []
    next :
        {f g : Field R} {fs gs : List (Field R)}
        → FieldMapped f g
        → AllMapped fs gs
        → AllMapped (f ∷ fs) (g ∷ gs)

  -- Every field is mapped, or the first stuck field is reached: those before it are mapped, and it
  -- and those after it are as they were.
  pub data Outcome (fs : List (Field R)) : Mapped R → Type 0 where
    mapped : {gs : List (Field R)} → AllMapped fs gs → Outcome fs (returns gs)
    stopped :
        (done mapped rest : List (Field R)) (f : Field R)
        → fs ≡ done ++ f ∷ rest
        → AllMapped done mapped
        → IsStuck f
        → Outcome fs (panics (mapped ++ f ∷ rest))

  -- One field: set, kept or stuck.
  abbrev FieldDone : Field R → Option (Field R) → Type 0
  FieldDone f none = IsStuck f
  FieldDone f (some g) = FieldMapped f g

  converted-FieldDone :
      (v : R.Value) (f : Field R) (o : Option R.Value)
      → lookup f.name m ≡ some (some v)
      → f.can_set ≡ true
      → R.convertible_to (R.type_of v) f.kind ≡ true
      → R.convert v f.kind ≡ o
      → FieldDone f (converted f o)
  unfolding converted
  converted-FieldDone v f none l c t e = unconverted v l c t e
  converted-FieldDone v f (some w) l c t e = set_to v w l c t e

  fit-FieldDone :
      (v : R.Value) (f : Field R) (b : Bool)
      → lookup f.name m ≡ some (some v)
      → f.can_set ≡ true
      → R.convertible_to (R.type_of v) f.kind ≡ b
      → FieldDone f (if b then converted f (R.convert v f.kind) else some f)
  fit-FieldDone v f true l c t = converted-FieldDone v f _ l c t refl
  fit-FieldDone v f false l c t = unfit v l t

  value-FieldDone :
      (v : R.Value) (f : Field R) (b : Bool)
      → lookup f.name m ≡ some (some v)
      → f.can_set ≡ b
      → FieldDone f (
          if b
          then (if R.convertible_to (R.type_of v) f.kind
              then converted f (R.convert v f.kind)
              else some f)
          else some f)
  value-FieldDone v f true l c = fit-FieldDone v f _ l c refl
  value-FieldDone v f false l c = fixed c

  nil-FieldDone :
      (f : Field R) (b : Bool)
      → lookup f.name m ≡ some none
      → f.can_set ≡ b
      → FieldDone f (if b then none else some f)
  nil-FieldDone f true l c = nil_held l c
  nil-FieldDone f false l c = fixed c

  set_from-FieldDone :
      (f : Field R) (o : Option (Option R.Value))
      → lookup f.name m ≡ o
      → FieldDone f (set_from (entry_of o) f)
  unfolding set_from
  set_from-FieldDone f none l = absent l
  set_from-FieldDone f (some none) l = nil-FieldDone f f.can_set l refl
  set_from-FieldDone f (some (some v)) l = value-FieldDone v f f.can_set l refl

  before-Outcome :
      (f g : Field R) (fs : List (Field R)) (r : Mapped R)
      → FieldMapped f g
      → Outcome fs r
      → Outcome (f ∷ fs) (before g r)
  unfolding before
  before-Outcome f g fs _ h (mapped all) = mapped (next h all)
  before-Outcome f g fs _ h (stopped done ms rest x e all stuck) =
      stopped (f ∷ done) (g ∷ ms) rest x (ap (λ l. f ∷ l) e) (next h all) stuck

  map_field-Outcome :
      (f : Field R) (fs : List (Field R)) (o : Option (Field R)) (r : Mapped R)
      → FieldDone f o
      → Outcome fs r
      → Outcome (f ∷ fs) (map_field o f fs r)
  unfolding map_field
  map_field-Outcome f fs none r stuck h = stopped [] [] fs f refl end stuck
  map_field-Outcome f fs (some g) r d h = before-Outcome f g fs r d h

  -- MapToStruct either returns, each field set to the converted value of the map if there is one,
  -- the field can be set and the types fit, and kept otherwise; or it panics at the first field
  -- that can be set and for which the map holds nil, or a value that does not convert although its
  -- type does: the fields before it are mapped, and it and those after it are as they were.
  pub map_to_struct-Outcome : (fs : List (Field R)) → Outcome fs (map_to_struct m fs)
  unfolding map_to_struct set_field
  map_to_struct-Outcome [] = mapped end
  map_to_struct-Outcome (f ∷ fs) =
      map_field-Outcome f fs (set_field m f) (map_to_struct m fs)
        (set_from-FieldDone f (lookup f.name m) refl) (map_to_struct-Outcome fs)
