-- ===== src/Connectors/Remote.antt =====
-- What the connectors of apps/api/src/modules/connectors/framework call: `fetch` and the texts of the
-- platform, and the readings of a configuration that they share.
use vowgrid_api.Common.{
  ◌≡◌, refl, arith, String, ◌<>◌, Bool, true, false, Option, none, some, List, [], ◌∷◌,
  if◌then◌else◌, str_eq,
}
use vowgrid_api.Env.{Env, Settled, resolved, threw, ConnectorValidateResult}
pub use vowgrid_api.Env.{Response, Request, Remote}
use vowgrid_api.Json.{Json, null, text, array, object, Items, nil, cons, Fields, field, get_field}

infixl 5 ◌>>=◌
unfoldable pub ◌>>=◌ : {A B : Type 0} → Settled A → (A → Settled B) → Settled B
threw e >>= f = threw e
resolved a >>= f = f a

-- `value.key` of a record, a list or another value; of `null` it throws.
abbrev pub member : String → Json → Settled (Option Json)
member key null = threw ("Cannot read properties of null (reading '" <> key <> "')")
member key (object fs) = resolved (get_field key fs)
member key _ = resolved none

-- `record.key` of a value that is a record by its type.
abbrev pub entry : String → Json → Option Json
entry key (object fs) = get_field key fs
entry key _ = none

-- `typeof value === 'string' ? value.trim() : ''`
abbrev pub trimmed : Env → Option Json → String
trimmed env (some (text s)) = env.trim s
trimmed env _ = ""

abbrev pub is_empty : String → Bool
is_empty s = str_eq s ""

-- `typeof value === 'string' && value.trim().length > 0`
abbrev pub filled_text : Env → Option Json → Option String
filled_text env (some (text s)) = if is_empty (env.trim s) then none else some s
filled_text env _ = none

-- `Array.isArray(value) ? value.filter(filled) : []`
abbrev texts_of : Env → Items → List String
texts_of env nil = []
texts_of env (cons v vs) =
    let later = texts_of env vs in
    elim (filled_text env (some v)) [ none ↦ later | some s ↦ s ∷ later ]

abbrev pub filled_texts : Env → Option Json → List String
filled_texts env (some (array vs)) = texts_of env vs
filled_texts env _ = []

abbrev pub text_items : List String → Items
text_items [] = nil
text_items (s ∷ ss) = cons (text s) (text_items ss)

-- A member whose value is `undefined` is none.
abbrev pub optional_field : String → Option Json → Fields → Fields
optional_field key none fs = fs
optional_field key (some v) fs = field key v fs

-- `if (test) errors.push(message)`: what it adds.
abbrev pub error_if : Bool → String → List String
error_if b message = if b then message ∷ [] else []

-- `{ valid: errors.length === 0, errors }`
abbrev pub validation_of : List String → ConnectorValidateResult
validation_of [] = record { valid = true; errors = [] }
validation_of (e ∷ es) = record { valid = false; errors = e ∷ es }

pub resolved-injective :
    {A : Type 0} {a b : A} → ◌≡◌ {A = Settled A} (resolved a) (resolved b) → a ≡ b
resolved-injective h = cc

-- A chain that resolves has resolved at each step.
pub bind-resolved :
    {A B : Type 0} (m : Settled A) (f : A → Settled B) (b : B)
    → (m >>= f) ≡ resolved b
    → (a : A) × (m ≡ resolved a) × (f a ≡ resolved b)
unfolding ◌>>=◌
bind-resolved (threw e) f b h = ground arith
bind-resolved (resolved a) f b h = (a, refl, h)
