-- ===== src/Logbuf.antt =====
-- internal/logbuf/logbuf.go: the last lines of the log. The handler that renders a record into a line is
-- in the child Handler.
pub mod Handler
use auto_tunnel.Prelude.{
  ℕ, zero, suc, ◌+◌, ◌-◌, ◌≤◌, ◌≡◌, refl, sym, ap, ◌∙◌, inl, inr, ◌||◌, List, [], ◌∷◌, ◌++◌,
  append_assoc, append-nil, arith, ltb, leb, ◌==◌, if◌then◌else◌, lt→ltb, Bool-cases, length, drop,
  length-append, length-drop,
}
use auto_tunnel.Prelude.Int.{ℤ, pos, negsuc}
use auto_tunnel.Text.{Bytes}

-- `max` is positive from `New` on.
pub record Buffer : Type 0 where
  pub lines : List Bytes
  pub max_lines : ℕ

unfoldable pub new_buffer : ℤ → Buffer
new_buffer (pos (suc n)) = record { lines = []; max_lines = suc n }
new_buffer _ = record { lines = []; max_lines = 200 }

-- `ls[len(ls)-n:]`, for `n` at most the length.
abbrev pub last_lines : ℕ → List Bytes → List Bytes
last_lines n ls = drop (length ls - n) ls

unfoldable pub add : Bytes → Buffer → Buffer
add line b =
    let lines = b.lines ++ line ∷ [] in
    if ltb b.max_lines (length lines)
    then record b { lines = last_lines b.max_lines lines }
    else record b { lines = lines }

-- Buffer.Tail; `Buffer.Lines` is the field itself.
unfoldable pub tail : ℤ → Buffer → List Bytes
tail (pos n) b = if n == 0 || leb (length b.lines) n then b.lines else last_lines n b.lines
tail _ b = b.lines

unfoldable pub add_all : List Bytes → Buffer → Buffer
unfolding add
add_all [] b = b
add_all (line ∷ lines) b = add_all lines (add line b)

drop-append_drop :
    {A : Type 0} (k : ℕ) (xs ys : List A) → k ≤ length xs → drop k (xs ++ ys) ≡ drop k xs ++ ys
drop-append_drop zero xs ys h = refl
drop-append_drop (suc k) [] ys h = absurd (omega (arith, h))
drop-append_drop (suc k) (x ∷ xs) ys h = drop-append_drop k xs ys (omega (arith, h))

drop_same : {A : Type 0} (xs : List A) {m n : ℕ} → m ≡ n → drop m xs ≡ drop n xs
drop_same xs e = ap (λ n. drop n xs) e

drop_empty : {A : Type 0} (n : ℕ) → let nil : List A = [] in nil ≡ drop n nil
drop_empty zero = refl
drop_empty (suc n) = refl

drop-drop : {A : Type 0} (j k : ℕ) (xs : List A) → drop j (drop k xs) ≡ drop (k + j) xs
drop-drop j zero xs = let same : j ≡ 0 + j = omega arith in drop_same xs same
drop-drop zero (suc k) [] = drop_empty (suc k + zero)
drop-drop (suc j) (suc k) [] = drop_empty (suc k + suc j)
drop-drop j (suc k) (x ∷ xs) =
    let ih = drop-drop j k xs in
    let same : suc k + j ≡ suc (k + j) = omega arith in ih ∙ ap (λ n. drop n (x ∷ xs)) (sym same)

-- One more line: the last lines of a log whose last lines the buffer held.
add-trimmed :
    (line : Bytes) (b : Buffer)
    → (add line b).lines ≡ drop (length (b.lines ++ line ∷ []) - b.max_lines) (b.lines ++ line ∷ [])
unfolding add
add-trimmed line b = elim (Bool-cases (ltb b.max_lines (length (b.lines ++ line ∷ [])))) [
  | inl e ↦ rw e refl
  | inr e ↦
      let none_over : 0 ≡ length (b.lines ++ line ∷ []) - b.max_lines =
        grind (arith, e, lt→ltb b.max_lines (length (b.lines ++ line ∷ []))) in
      rw e (drop_same (b.lines ++ line ∷ []) none_over)
]

add-max_lines : (line : Bytes) (b : Buffer) → (add line b).max_lines ≡ b.max_lines
unfolding add
add-max_lines line b = elim (Bool-cases (ltb b.max_lines (length (b.lines ++ line ∷ [])))) [
  | inl e ↦ rw e refl
  | inr e ↦ rw e refl
]

last_lines-append :
    (n : ℕ) (line : Bytes) (log : List Bytes)
    → let kept = last_lines n log ++ line ∷ [] in
      last_lines n kept ≡ last_lines n (log ++ line ∷ [])
last_lines-append n line log =
    let kept = last_lines n log in
    let k = length log - n in
    let joined : drop k (log ++ line ∷ []) ≡ kept ++ line ∷ [] =
      drop-append_drop k log (line ∷ []) (omega arith) in
    let there : k + (length (kept ++ line ∷ []) - n) ≡ length (log ++ line ∷ []) - n =
      omega
        (arith, length-append kept (line ∷ []), length-append log (line ∷ []), length-drop k log) in
    ap (drop (length (kept ++ line ∷ []) - n)) (sym joined)
    ∙ drop-drop (length (kept ++ line ∷ []) - n) k (log ++ line ∷ [])
    ∙ drop_same (log ++ line ∷ []) there

add_all-from :
    (log more : List Bytes) (b : Buffer)
    → b.lines ≡ last_lines b.max_lines log
    → (add_all more b).lines ≡ last_lines b.max_lines (log ++ more)
unfolding add_all
add_all-from log [] b h = h ∙ ap (last_lines b.max_lines) (sym (append-nil log))
add_all-from log (line ∷ more) b h =
    let same = add-max_lines line b in
    let one =
      add-trimmed line b
      ∙ ap (λ ls. last_lines b.max_lines (ls ++ line ∷ [])) h
      ∙ last_lines-append b.max_lines line log in
    let ih =
      add_all-from (log ++ line ∷ []) more (add line b)
        (one ∙ ap (λ n. last_lines n (log ++ line ∷ [])) (sym same)) in
    ih
    ∙ ap (λ n. last_lines n ((log ++ line ∷ []) ++ more)) same
    ∙ ap (last_lines b.max_lines) (append_assoc log (line ∷ []) more)

new_buffer-empty : (size : ℤ) → (new_buffer size).lines ≡ last_lines (new_buffer size).max_lines []
unfolding new_buffer
new_buffer-empty (pos zero) = refl
new_buffer-empty (pos (suc n)) = drop_empty (0 - suc n)
new_buffer-empty (negsuc n) = refl

-- After any lines have been added to a new buffer, it holds the last of them, `max` at most, oldest
-- first, and all of them while they are no more than that.
pub add_all-last :
    (size : ℤ) (log : List Bytes)
    → let b = new_buffer size in (add_all log b).lines ≡ last_lines b.max_lines log
add_all-last size log = add_all-from [] log (new_buffer size) (new_buffer-empty size)
