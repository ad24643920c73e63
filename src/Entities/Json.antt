-- ===== src/Entities/Json.antt =====
-- A JSON value: a `jsonb` column, a request body, or whatever the program holds as `unknown`.
use gameclub_backend.Prelude.{Bool, String, Uuid}
use gameclub_backend.Prelude.Int.{ℤ}

mutual
  pub data Json : Type 0 where
    null : Json
    bool : Bool → Json
    num : ℤ → Json
    str : String → Json
    uuid : Uuid → Json
    arr : Items → Json
    obj : Fields → Json

  pub data Items : Type 0 where
    nil : Items
    cons : Json → Items → Items

  pub data Fields : Type 0 where
    end : Fields
    field : String → Json → Fields → Fields
