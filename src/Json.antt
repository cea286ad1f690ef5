-- ===== src/Json.antt =====
-- JSON values, as the `Json` columns of the database and the request bodies hold them. A number is
-- held by the bits of its double: what the source does with it is a parameter (`Numbers`).
use vowgrid_api.Common.{ℕ, String, Bool, Option, none, some, str_eq, if◌then◌else◌}

mutual
  pub data Json : Type 0 where
    null : Json
    bool : Bool → Json
    number : ℕ → Json
    text : String → Json
    array : Items → Json
    object : Fields → Json

  pub data Items : Type 0 where
    nil : Items
    cons : Json → Items → Items

  pub data Fields : Type 0 where
    end : Fields
    field : String → Json → Fields → Fields

-- `fields[key]`, where `undefined` is `none`.
unfoldable pub get_field : String → Fields → Option Json
get_field key end = none
get_field key (field k v rest) =
    let later = get_field key rest in if str_eq k key then some v else later

-- The doubles of the language: the values are their bits.
pub record Numbers : Type 0 where
  pub nan : ℕ
  pub zero_number : ℕ
  pub one_number : ℕ
  pub is_nan : ℕ → Bool
  -- `a > b`
  pub greater : ℕ → ℕ → Bool
  -- `Number(s)` at a text, and at an array or object through its text
  pub of_text : String → ℕ
  pub of_array : Items → ℕ
  pub of_object : Fields → ℕ
  -- `${n}`
  pub show : ℕ → String

-- `Number(value)`.
unfoldable pub to_number : Numbers → Option Json → ℕ
to_number n none = n.nan
to_number n (some null) = n.zero_number
to_number n (some (bool b)) = if b then n.one_number else n.zero_number
to_number n (some (number d)) = d
to_number n (some (text s)) = n.of_text s
to_number n (some (array xs)) = n.of_array xs
to_number n (some (object fs)) = n.of_object fs
