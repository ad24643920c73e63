-- ===== src/Analytics/Shares.antt =====
-- The groups of the queries of src/modules/analytics/analytics.service.ts: their sums, and the top
-- five.
use gameclub_backend.Prelude.{
  ℕ, ◌+◌, ◌≤◌, ◌≡◌, ◌⊎◌, refl, ap, ◌∙◌, List, [], ◌∷◌, ◌++◌, arith, take, drop, length,
  take-append-drop, ◌==◌, if◌then◌else◌, Uuid, Bool-cases, inl, inr,
}
use gameclub_backend.Prelude.Int.{ℤ, pos, ◌+ℤ◌, ◌≤ℤ◌, int_laws, not_less}
use gameclub_backend.Entities.Club.{Session}
use gameclub_backend.Analytics.{
  Share, sum_of, add_share, group_by, place_share, order_shares, top_shares,
}

-- What the groups with key `k` add up to, and how many there are.
unfoldable pub share_sum : Uuid → List Share → ℤ
share_sum k [] = pos 0
share_sum k (g ∷ groups) = (if g.key == k then g.revenue else pos 0) +ℤ share_sum k groups

unfoldable pub share_count : Uuid → List Share → ℕ
share_count k [] = 0
share_count k (g ∷ groups) = (if g.key == k then 1 else 0) + share_count k groups

unfoldable pub total : List Share → ℤ
total [] = pos 0
total (g ∷ groups) = g.revenue +ℤ total groups

-- What the sessions with key `k` have paid.
abbrev pub paid_for : (Session → Uuid) → Uuid → Session → ℤ
paid_for key k s = if key s == k then s.amount_paid else pos 0

shuffle : (a b c : ℤ) → a +ℤ (b +ℤ c) ≡ b +ℤ (a +ℤ c)
shuffle a b c = omega int_laws

regroup : (a b c : ℤ) → (a +ℤ b) +ℤ c ≡ a +ℤ (b +ℤ c)
regroup a b c = omega int_laws

from_zero : (a : ℤ) → pos 0 +ℤ a ≡ a
from_zero a = omega int_laws

-- The revenues do not rise along the list.
abbrev pub Falls : List Share → Type 0
Falls [] = Unit {0}
Falls (g ∷ []) = Unit {0}
Falls (g ∷ (h ∷ groups)) = (h.revenue ≤ℤ g.revenue) × Falls (h ∷ groups)

share_sum-add_share :
    (k j : Uuid) (v : ℤ) (groups : List Share)
    → share_sum k (add_share j v groups) ≡ (if j == k then v else pos 0) +ℤ share_sum k groups
unfolding share_sum add_share
share_sum-add_share k j v [] = refl
share_sum-add_share k j v (g ∷ groups) = elim (Bool-cases (g.key == j)) [
  | inl e ↦
      ground
        (arith, regroup v g.revenue (share_sum k groups), from_zero (pos 0 +ℤ share_sum k groups))
  | inr e ↦ ground (
    arith,
    share_sum-add_share k j v groups,
    shuffle (if g.key == k then g.revenue else pos 0) (if j == k then v else pos 0)
        (share_sum k groups),
  )
]

share_count-add_share :
    (k j : Uuid) (v : ℤ) (groups : List Share)
    → share_count k (add_share j v groups)
      ≡ (if j == k then (if share_count j groups == 0 then 1 else 0) else 0) + share_count k groups
unfolding share_count add_share
share_count-add_share k j v [] = ground arith
share_count-add_share k j v (g ∷ groups) = ground (arith, share_count-add_share k j v groups)

total-add_share :
    (j : Uuid) (v : ℤ) (groups : List Share) → total (add_share j v groups) ≡ v +ℤ total groups
unfolding total add_share
total-add_share j v [] = refl
total-add_share j v (g ∷ groups) = elim (Bool-cases (g.key == j)) [
  | inl e ↦ ground (arith, regroup v g.revenue (total groups))
  | inr e ↦ ground (arith, total-add_share j v groups, shuffle g.revenue v (total groups))
]

total-place_share :
    (g : Share) (groups : List Share) → total (place_share g groups) ≡ total (g ∷ groups)
unfolding total place_share
total-place_share g [] = refl
total-place_share g (h ∷ groups) =
    ground (arith, total-place_share g groups, shuffle h.revenue g.revenue (total groups))

place_share-Falls : (g : Share) (groups : List Share) → Falls groups → Falls (place_share g groups)
unfolding place_share
place_share-Falls g [] f = tt
place_share-Falls g (h ∷ []) f = ground (arith, not_less g.revenue h.revenue)
place_share-Falls g (h ∷ (i ∷ groups)) f =
    ground (arith, not_less g.revenue h.revenue, place_share-Falls g (i ∷ groups))

order_shares-Falls : (groups : List Share) → Falls (order_shares groups)
unfolding order_shares
order_shares-Falls [] = tt
order_shares-Falls (g ∷ groups) =
    place_share-Falls g (order_shares groups) (order_shares-Falls groups)

total-order_shares : (groups : List Share) → total (order_shares groups) ≡ total groups
unfolding total order_shares
total-order_shares [] = refl
total-order_shares (g ∷ groups) =
    total-place_share g (order_shares groups) ∙ ap (λ v. g.revenue +ℤ v) (total-order_shares groups)

share_sum-place_share :
    (k : Uuid) (g : Share) (groups : List Share)
    → share_sum k (place_share g groups) ≡ share_sum k (g ∷ groups)
unfolding share_sum place_share
share_sum-place_share k g [] = refl
share_sum-place_share k g (h ∷ groups) = ground (
  arith,
  share_sum-place_share k g groups,
  shuffle (if h.key == k then h.revenue else pos 0) (if g.key == k then g.revenue else pos 0)
      (share_sum k groups),
)

share_count-place_share :
    (k : Uuid) (g : Share) (groups : List Share)
    → share_count k (place_share g groups) ≡ share_count k (g ∷ groups)
unfolding share_count place_share
share_count-place_share k g [] = refl
share_count-place_share k g (h ∷ groups) = ground (arith, share_count-place_share k g groups)

order_shares-same :
    (k : Uuid) (groups : List Share)
    → (share_sum k (order_shares groups) ≡ share_sum k groups)
      × (share_count k (order_shares groups) ≡ share_count k groups)
unfolding share_sum share_count order_shares
order_shares-same k [] = (refl, refl)
order_shares-same k (g ∷ groups) =
    let (sums, counts) = order_shares-same k groups in
    (
      share_sum-place_share k g (order_shares groups)
          ∙ ap (λ v. (if g.key == k then g.revenue else pos 0) +ℤ v) sums,
      share_count-place_share k g (order_shares groups)
          ∙ ap (λ n. (if g.key == k then 1 else 0) + n) counts,
    )

group_by_lem :
    (key : Session → Uuid) (k : Uuid) (rows : List Session)
    → (share_sum k (group_by key rows) ≡ sum_of (paid_for key k) rows)
      × (share_count k (group_by key rows) ≤ 1)
unfolding group_by sum_of share_sum share_count
group_by_lem key k [] = (refl, omega arith)
group_by_lem key k (s ∷ rows) =
    let (sums, once) = group_by_lem key k rows in
    let (sums', once') = group_by_lem key (key s) rows in
    (
      share_sum-add_share k (key s) s.amount_paid (group_by key rows)
          ∙ ap (λ v. (if key s == k then s.amount_paid else pos 0) +ℤ v) sums,
      ground (arith, share_count-add_share k (key s) s.amount_paid (group_by key rows)),
    )

total-group_by :
    (key : Session → Uuid) (rows : List Session)
    → total (group_by key rows) ≡ sum_of (λ s. s.amount_paid) rows
unfolding group_by sum_of total
total-group_by key [] = refl
total-group_by key (s ∷ rows) =
    total-add_share (key s) s.amount_paid (group_by key rows)
    ∙ ap (λ v. s.amount_paid +ℤ v) (total-group_by key rows)

-- What the top five are of: all groups in falling order.
pub record Ranked (key : Session → Uuid) (rows : List Session) (top rest : List Share)
    : Type 0 where
  pub falls : Falls (top ++ rest)
  pub sums : (k : Uuid) → share_sum k (top ++ rest) ≡ sum_of (paid_for key k) rows
  pub once : (k : Uuid) → share_count k (top ++ rest) ≤ 1
  pub whole : total (top ++ rest) ≡ sum_of (λ s. s.amount_paid) rows

five : {A : Type 0} (xs : List A) → (length (take 5 xs) ≡ 5) ⊎ (drop 5 xs ≡ [])
five [] = inr refl
five (a ∷ []) = inr refl
five (a ∷ (b ∷ [])) = inr refl
five (a ∷ (b ∷ (c ∷ []))) = inr refl
five (a ∷ (b ∷ (c ∷ (d ∷ [])))) = inr refl
five (a ∷ (b ∷ (c ∷ (d ∷ (e ∷ xs))))) = inl refl

-- The top five groups of some sessions head a list of groups in falling order of revenue; it has
-- each key once, with the sum of what the sessions with that key have paid, and adds up to the whole
-- revenue. There are five of them, or all.
pub top_shares-Ranked :
    (key : Session → Uuid) (rows : List Session)
    → (rest : List Share) × Ranked key rows (top_shares key rows) rest
      × ((length (top_shares key rows) ≡ 5) ⊎ (rest ≡ []))
unfolding top_shares
top_shares-Ranked key rows =
    let groups = group_by key rows in
    let ordered = order_shares groups in
    let joined = take-append-drop 5 ordered in
    (
      drop 5 ordered,
      record {
        falls = rw joined (order_shares-Falls groups);
        sums = λ k. rw joined ((order_shares-same k groups).0 ∙ (group_by_lem key k rows).0);
        once = λ k. rw joined (rw ((order_shares-same k groups).1) (group_by_lem key k rows).1);
        whole = rw joined (total-order_shares groups ∙ total-group_by key rows);
      },
      five ordered,
    )
