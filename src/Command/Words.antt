-- ===== src/Command/Words.antt =====
-- The loop that peels the positional arguments off ends.
use auto_tunnel.Prelude.{
  ℕ, zero, suc, ◌≤◌, ◌<◌, ◌≡◌, refl, some, List, [], ◌∷◌, ◌++◌, arith, length, Result, ok, err,
}
use auto_tunnel.Text.{Bytes}
use auto_tunnel.Command.{Flags, FlagError, not_parsed, peel}

-- The package flag gives back no more words than it was given.
abbrev pub Shortens : (List Bytes → Flags → Result Bytes (Flags × List Bytes)) → Type 0
Shortens parse =
    (words : List Bytes) (f g : Flags) (rest : List Bytes)
    → parse words f ≡ ok (g, rest)
    → length rest ≤ length words

-- With more rounds than words the words are parsed to the end, to an error or to the flags and the
-- positional arguments. The parser gives back no more words than it was given.
pub peel-some :
    (parse : List Bytes → Flags → Result Bytes (Flags × List Bytes)) (fuel : ℕ) (words : List Bytes)
    (f : Flags) (positional : List Bytes)
    → Shortens parse
    → length words < fuel
    → (r : Result FlagError (Flags × List Bytes)) × (peel parse fuel words f positional ≡ some r)
unfolding peel
peel-some parse zero words f positional short h = absurd (below h)
  where
    below : length words < 0 → ⊥
    below k = omega (arith, k)
peel-some parse (suc fuel) words f positional short h =
    go (parse words f) (short words f) (λ g rest p. peel-some parse fuel rest g p short)
  where
    go :
        (r : Result Bytes (Flags × List Bytes))
        → ((g : Flags) (rest : List Bytes) → r ≡ ok (g, rest) → length rest ≤ length words)
        → ((g : Flags) (rest p : List Bytes)
            → length rest < fuel
            → (r : Result FlagError (Flags × List Bytes)) × (peel parse fuel rest g p ≡ some r))
        → (q : Result FlagError (Flags × List Bytes)) × (elim r [
          | err reason ↦ some (err (not_parsed reason))
          | ok (g, []) ↦ some (ok (g, positional))
          | ok (g, host ∷ rest) ↦ peel parse fuel rest g (positional ++ host ∷ [])
        ]
            ≡ some q)
    go (err reason) s k = (_, refl)
    go (ok (g, [])) s k = (_, refl)
    go (ok (g, host ∷ rest)) s k =
        k g rest (positional ++ host ∷ []) (omega (arith, h, s g (host ∷ rest) refl))
