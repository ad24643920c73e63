-- ===== src/Customers/Search.antt =====
-- The search term of `findAll` in src/modules/customers/customers.service.ts, as a list of character
-- codes, and what PostgreSQL's LIKE reads in it.
use gameclub_backend.Prelude.{
  ℕ, ◌≡◌, ◌∙◌, refl, ap, Bool, false, ◌||◌, List, [], ◌∷◌, ◌++◌, map, ◌==◌, if◌then◌else◌, arith,
  Bool-cases, inl, inr,
}

abbrev pub backslash : ℕ
backslash = 92

abbrev pub is_meta : ℕ → Bool
is_meta c = (c == backslash) || (c == b'%') || (c == b'_')

-- `input.replace(/[\\%_]/g, (m) => '\\' + m)`.
unfoldable pub escape_like : List ℕ → List ℕ
escape_like [] = []
escape_like (c ∷ s) = if is_meta c then backslash ∷ c ∷ escape_like s else c ∷ escape_like s

-- `%${term}%`.
abbrev pub contains_pattern : List ℕ → List ℕ
contains_pattern s = b'%' ∷ escape_like s ++ b'%' ∷ []

-- The items of a LIKE pattern: a backslash takes the next character as it is.
pub data LikeItem : Type 0 where
  literal : ℕ → LikeItem
  any_text any_one : LikeItem

abbrev pub item : ℕ → LikeItem
item c = if c == b'%' then any_text else if c == b'_' then any_one else literal c

unfoldable pub read_like : List ℕ → List LikeItem
read_like [] = []
read_like (c ∷ []) = item c ∷ []
read_like (c ∷ d ∷ s) =
    if c == backslash then literal d ∷ read_like s else item c ∷ read_like (d ∷ s)

read_like-plain :
    (c : ℕ) (rest : List ℕ) → is_meta c ≡ false → read_like (c ∷ rest) ≡ literal c ∷ read_like rest
unfolding read_like
read_like-plain c [] h = ground arith
read_like-plain c (d ∷ rest) h = ground arith

read_like-percent : (rest : List ℕ) → read_like (b'%' ∷ rest) ≡ any_text ∷ read_like rest
unfolding read_like
read_like-percent [] = refl
read_like-percent (d ∷ rest) = refl

read_like-escape_like :
    (s t : List ℕ) → read_like (escape_like s ++ t) ≡ map literal s ++ read_like t
unfolding escape_like read_like
read_like-escape_like [] t = refl
read_like-escape_like (c ∷ s) t = elim (Bool-cases (is_meta c)) [
  | inl special ↦ ground (arith, read_like-escape_like s t)
  | inr plain ↦
      ground (arith, read_like-plain c (escape_like s ++ t) plain, read_like-escape_like s t)
]

-- The database reads the pattern of a search as any text, then the term character by character, and
-- then any text: no character of the term is taken for a wildcard.
pub read_like-contains_pattern :
    (s : List ℕ) → read_like (contains_pattern s) ≡ any_text ∷ map literal s ++ any_text ∷ []
unfolding read_like
read_like-contains_pattern s =
    read_like-percent (escape_like s ++ b'%' ∷ [])
    ∙ ap (λ l. any_text ∷ l)
        (read_like-escape_like s (b'%' ∷ []) ∙ ap (λ l. map literal s ++ l) (read_like-percent []))
