-- ===== src/SdJwt/Json.antt =====
-- JSON values. A number is kept as it is written: the verifier computes with none of them.
use online_verifier.Prelude.{String, Bool, Option, none, some, if◌then◌else◌, ◌==◌, ℕ_eq, string_eq}

mutual
  pub data Json : Type 0 where
    null : Json
    bool : Bool → Json
    num : String → Json
    str : String → Json
    arr : Items → Json
    obj : Fields → Json

  pub data Items : Type 0 where
    nil : Items
    cons : Json → Items → Items

  pub data Fields : Type 0 where
    end : Fields
    field : String → Json → Fields → Fields

-- `fields[key]`, with `none` for undefined.
unfoldable pub get : String → Fields → Option Json
get key end = none
get key (field k v fs) = if k == key then some v else get key fs

-- `typeof v === "string" ? v : undefined`.
unfoldable pub as_string : Option Json → Option String
as_string (some (str s)) = some s
as_string _ = none
