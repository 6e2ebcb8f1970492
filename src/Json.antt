-- ===== src/Json.antt =====
-- A parsed JSON value, as `JSON.parse` and `Response.json` (runtime) return it. Numbers are the
-- natural ones.
use zedspaces.Base.{ℕ, Bool, Text, text_eq, Option, none, some, if◌then◌else◌}

mutual
  pub data Json : Type 0 where
    null : Json
    bool : Bool → Json
    num : ℕ → Json
    str : Text → Json
    arr : Items → Json
    obj : Fields → Json

  pub data Items : Type 0 where
    nil : Items
    cons : Json → Items → Items

  pub data Fields : Type 0 where
    end : Fields
    field : Text → Json → Fields → Fields

-- `raw.key`; the last of two equal keys wins in `JSON.parse`, so an object has each key once.
unfoldable pub get : Text → Fields → Option Json
get key end = none
get key (field k v fs) = if text_eq k key then some v else get key fs
