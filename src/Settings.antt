-- ===== src/Settings.antt =====
-- src/modules/settings/settings.service.ts: values under keys, over defaults.
use gameclub_backend.Prelude.{
  ℕ, suc, ◌≤◌, ◌≡◌, ◌⊎◌, ◌∙◌, inl, inr, refl, arith, Bool-cases, Option-cases, Option, none, some,
  String, List, [], ◌∷◌, same_text, if◌then◌else◌, Uuid,
}
use gameclub_backend.Prelude.Int.{pos}
use gameclub_backend.Entities.Json.{Json}

pub record Setting : Type 0 where
  pub key : String
  pub value : Json
  pub updated_by : Option Uuid

-- `DEFAULTS`.
unfoldable pub default_of : String → Option Json
default_of key =
    if same_text key "club.name"
    then some (Json.str "Game Club")
    else if same_text key "club.currency"
    then some (Json.str "UZS")
    else if same_text key "session.lateGraceSeconds"
    then some (Json.num (pos 0))
    else none

unfoldable pub find_setting : String → List Setting → Option Setting
find_setting key [] = none
find_setting key (s ∷ rows) = if same_text s.key key then some s else find_setting key rows

-- `row?.value ?? DEFAULTS[key]`: a stored null gives way to the default.
abbrev pub value_or : Option Setting → Option Json → Option Json
value_or none d = d
value_or (some s) d = elim s.value [ Json.null ↦ d | v ↦ some v ]

unfoldable pub get : String → List Setting → Option Json
unfolding find_setting default_of
get key rows = value_or (find_setting key rows) (default_of key)

-- `set`: the row with the key is written, or a new one.
unfoldable pub set : String → Json → Uuid → List Setting → List Setting
set key value by [] = record { key = key; value = value; updated_by = some by } ∷ []
set key value by (s ∷ rows) =
    if same_text s.key key
    then record s { value = value; updated_by = some by } ∷ rows
    else s ∷ set key value by rows

-- `merged[key] = value`, for an object as the value of each key.
abbrev assign : String → Json → (String → Option Json) → String → Option Json
assign k value merged key = if same_text k key then some value else merged key

-- The loop of `getAll`.
unfoldable pub merge : (String → Option Json) → List Setting → String → Option Json
merge merged [] key = merged key
merge merged (s ∷ rows) key = merge (assign s.key s.value merged) rows key

-- `getAll`: the value under each key.
unfoldable pub get_all : List Setting → String → Option Json
unfolding merge default_of
get_all rows = merge default_of rows

-- The rows with a key, which the primary key of the table bounds by one.
unfoldable pub rows_with : String → List Setting → ℕ
rows_with key [] = 0
rows_with key (s ∷ rows) =
    if same_text s.key key then suc (rows_with key rows) else rows_with key rows

abbrev pub stored : Option Setting → Option Json → Option Json
stored none d = d
stored (some s) d = some s.value

merge-none :
    (merged : String → Option Json) (rows : List Setting) (key : String)
    → rows_with key rows ≡ 0
    → merge merged rows key ≡ merged key
unfolding merge rows_with
merge-none merged [] key h = refl
merge-none merged (s ∷ rows) key h = elim (Bool-cases (same_text s.key key)) [
  | inl same ↦ absurd (ground arith)
  | inr differs ↦ merge-none (assign s.key s.value merged) rows key (ground arith) ∙ rw differs refl
]

merge-find_setting :
    (merged : String → Option Json) (rows : List Setting) (key : String)
    → rows_with key rows ≤ 1
    → merge merged rows key ≡ stored (find_setting key rows) (merged key)
unfolding merge rows_with find_setting
merge-find_setting merged [] key h = refl
merge-find_setting merged (s ∷ rows) key h = elim (Bool-cases (same_text s.key key)) [
  | inl same ↦ merge-none (assign s.key s.value merged) rows key (ground arith) ∙ rw same refl
  | inr differs ↦
      merge-find_setting (assign s.key s.value merged) rows key (ground arith) ∙ rw differs refl
]

-- With one row for a key at most, `getAll` and `get` tell the same value under it, unless a null is
-- stored, which `get` alone replaces by the default.
pub get_all-get :
    (rows : List Setting) (key : String)
    → rows_with key rows ≤ 1
    → (get_all rows key ≡ get key rows)
      ⊎ ((get_all rows key ≡ some Json.null) × (get key rows ≡ default_of key))
unfolding get_all get
get_all-get rows key h =
    let merged = merge-find_setting default_of rows key h in
    elim (Option-cases (find_setting key rows)) [
      | inl missing ↦ inl (ground (arith, merged))
      | inr (s, found) ↦ ground (arith, merged)
    ]
