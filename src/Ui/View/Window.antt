-- ===== src/Ui/View/Window.antt =====
-- The rows that the table draws.
use auto_tunnel.Prelude.{
  ℕ, zero, suc, ◌+◌, ◌-◌, ◌≤◌, ◌<◌, min, ◌≡◌, refl, ap, ◌∙◌, Bool, some, List, [], ◌∷◌, arith,
  length, get_elem?, drop, take,
}
use auto_tunnel.State.{Tunnel}
use auto_tunnel.Ui.{Model, selected}
use auto_tunnel.Ui.View.{visible_row_count, window_start, window_end, drawn_rows}

get_elem?-drop :
    {A : Type 0} (n i : ℕ) (xs : List A) → get_elem? (drop n xs) i ≡ get_elem? xs (n + i)
get_elem?-drop zero i xs = let e : i ≡ 0 + i = omega arith in ap (get_elem? xs) e
get_elem?-drop (suc n) i [] = refl
get_elem?-drop (suc n) i (x ∷ xs) =
    let e : suc (n + i) ≡ suc n + i = omega arith in
    get_elem?-drop n i xs ∙ ap (get_elem? (x ∷ xs)) e

get_elem?-take :
    {A : Type 0} (n i : ℕ) (xs : List A) → i < n → get_elem? (take n xs) i ≡ get_elem? xs i
get_elem?-take zero i xs h = absurd (beyond h)
  where
    beyond : i < 0 → ⊥
    beyond k = omega (arith, k)
get_elem?-take (suc n) i [] h = refl
get_elem?-take (suc n) zero (x ∷ xs) h = refl
get_elem?-take (suc n) (suc i) (x ∷ xs) h = get_elem?-take n i xs (omega (arith, h))

length-take : {A : Type 0} (n : ℕ) (xs : List A) → length (take n xs) ≡ min n (length xs)
length-take zero xs = omega arith
length-take (suc n) [] = omega arith
length-take (suc n) (x ∷ xs) = omega (arith, length-take n xs)

get_elem?-range :
    {A : Type 0} (i : ℕ) (xs : List A) (x : A) → get_elem? xs i ≡ some x → i < length xs
get_elem?-range i [] x h = cc
get_elem?-range zero (y ∷ ys) x h = omega arith
get_elem?-range (suc i) (y ∷ ys) x h = omega (arith, get_elem?-range i ys x h)

-- The cursor is in the window, which is no wider than what is visible.
abbrev IsWindow : ℕ → ℕ → ℕ → ℕ → Type 0
IsWindow visible cursor start end =
    (start ≤ cursor) × (cursor - start < end - start) × (end - start ≤ visible)

cursor-IsWindow :
    (visible cursor count : ℕ)
    → 1 ≤ visible
    → cursor < count
    → IsWindow visible cursor (window_start visible cursor) (window_end visible cursor count)
unfolding window_start window_end
cursor-IsWindow visible cursor count v c = ground arith

visible_row_count-positive : (has_banner : Bool) (m : Model) → 1 ≤ visible_row_count has_banner m
unfolding visible_row_count
visible_row_count-positive has_banner m = omega arith

-- The row of the cursor, if there is one, is among the rows that are drawn, and at most as many rows are
-- drawn as `visible_row_count` says, whatever the size of the terminal.
pub drawn_rows-selected :
    (has_banner : Bool) (m : Model) (row : Tunnel)
    → selected m ≡ some row
    → let visible = visible_row_count has_banner m in
      (get_elem? (drawn_rows visible m) (m.cursor - window_start visible m.cursor) ≡ some row)
      × (length (drawn_rows visible m) ≤ visible)
unfolding drawn_rows selected
drawn_rows-selected has_banner m row e =
    let visible = visible_row_count has_banner m in
    let start = window_start visible m.cursor in
    let end = window_end visible m.cursor (length m.rows) in
    let (low, high, narrow) =
      cursor-IsWindow visible m.cursor (length m.rows) (visible_row_count-positive has_banner m)
        (get_elem?-range m.cursor m.rows row e) in
    let back : start + (m.cursor - start) ≡ m.cursor = omega (arith, low) in
    (
      get_elem?-take (end - start) (m.cursor - start) (drop start m.rows) high
          ∙ get_elem?-drop start (m.cursor - start) m.rows
          ∙ ap (get_elem? m.rows) back
          ∙ e,
      omega (arith, narrow, length-take (end - start) (drop start m.rows)),
    )
