-- ===== src/Json.antt =====
-- The values that the program types as `unknown`: what JSON text can say.
use workflow_spec.Prelude.{
  ℤ, ◌≡◌, refl, ap, String, Bool, List, [], ◌∷◌, Option, none, some, ◌==◌, true, false, contains,
  string_eq, if◌then◌else◌,
}

-- A number by what the program asks of it: one that is no integer keeps its literal.
pub data Number : Type 0 where
  int : ℤ → Number
  fraction : String → Number

mutual
  pub data Json : Type 0 where
    null : Json
    bool : Bool → Json
    num : Number → Json
    str : String → Json
    arr : Items → Json
    obj : Fields → Json

  pub data Items : Type 0 where
    nil : Items
    cons : Json → Items → Items

  pub data Fields : Type 0 where
    end : Fields
    field : String → Json → Fields → Fields

-- `Record<string, T>`: its own enumerable properties, in order.
abbrev pub Dict {ℓ} : Type ℓ → Type ℓ
Dict V = List (String × V)

-- `d[k]`, where `none` is `undefined`.
unfoldable pub lookup {ℓ} : {V : Type ℓ} → String → Dict V → Option V
unfolding string_eq
lookup k [] = none
lookup k ((j, v) ∷ d) = if k == j then some v else lookup k d

-- The names that every plain object inherits from `Object.prototype`.
abbrev pub inherited_names : List String
inherited_names =
    "constructor" ∷ "__defineGetter__" ∷ "__defineSetter__" ∷ "hasOwnProperty" ∷ "__lookupGetter__"
    ∷ "__lookupSetter__" ∷ "isPrototypeOf" ∷ "propertyIsEnumerable" ∷ "toString" ∷ "valueOf"
    ∷ "__proto__" ∷ "toLocaleString" ∷ []

-- What reading `d[k]` of a plain object finds: a property of its own, one that it inherits, whose
-- value is a function or an object, or none.
pub data Property {ℓ} (V : Type ℓ) : Type ℓ where
  own : V → Property V
  inherited missing : Property V

abbrev pub property_of {ℓ} : {V : Type ℓ} → Bool → Option V → Property V
property_of is_inherited (some v) = own v
property_of true none = inherited
property_of false none = missing

unfoldable pub get_property {ℓ} : {V : Type ℓ} → String → Dict V → Property V
unfolding lookup string_eq
get_property k d = property_of (contains inherited_names k) (lookup k d)

-- `Object.values` and `Object.keys`.
abbrev pub values {ℓ} : {V : Type ℓ} → Dict V → List V
values [] = []
values ((k, v) ∷ d) = v ∷ values d

abbrev pub keys {ℓ} : {V : Type ℓ} → Dict V → List String
keys [] = []
keys ((k, v) ∷ d) = k ∷ keys d

unfoldable pub entries : Fields → Dict Json
entries end = []
entries (field k v fs) = (k, v) ∷ entries fs

unfoldable pub items : Items → List Json
items nil = []
items (cons x xs) = x ∷ items xs

unfoldable pub from_entries : Dict Json → Fields
from_entries [] = end
from_entries ((k, v) ∷ d) = field k v (from_entries d)

pub entries-from_entries : (d : Dict Json) → entries (from_entries d) ≡ d
unfolding entries from_entries
entries-from_entries [] = refl
entries-from_entries ((k, v) ∷ d) = ap (λ (r : Dict Json). (k, v) ∷ r) (entries-from_entries d)
