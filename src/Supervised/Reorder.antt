-- ===== src/Supervised/Reorder.antt =====
-- `_reorder_map` of pacsys/supervised/_server.py.
pub mod Laws
use pacsys.Prelude.{
  text_eq, value_error, ℕ, zero, suc, Bool, true, false, ◌&&◌, Option, none, some, List, [], ◌∷◌,
  if◌then◌else◌, Result, ok, err, length, Text,
}
use pacsys.Supervised.Access.{and_then}

-- `range(i, i + n)`.
unfoldable pub slots_from : ℕ → ℕ → List ℕ
slots_from i zero = []
slots_from i (suc n) = i ∷ slots_from (suc i) n

-- `positions.pop(0)` for a request: the first position of it that is left, and the positions without it.
unfoldable pub behind : Text × ℕ → Option (ℕ × List (Text × ℕ)) → Option (ℕ × List (Text × ℕ))
behind entry none = none
behind entry (some (j, left)) = some (j, entry ∷ left)

unfoldable pub take_position : Text → List (Text × ℕ) → Option (ℕ × List (Text × ℕ))
unfolding text_eq behind
take_position d [] = none
take_position d ((e, i) ∷ rest) =
    let later = take_position d rest in if text_eq e d then some (i, rest) else behind (e, i) later

unfoldable pub numbered : ℕ → List Text → List (Text × ℕ)
numbered i [] = []
numbered i (d ∷ ds) = (d, i) ∷ numbered (suc i) ds

-- A request that is not left among the positions was removed by a policy.
unfoldable pub placed :
    Option (ℕ × List (Text × ℕ)) → (List (Text × ℕ) → Result (List ℕ)) → Result (List ℕ)
unfolding and_then
placed none rest = err value_error
placed (some (i, left)) rest = and_then (rest left) (λ is. ok (i ∷ is))

unfoldable pub reorder_loop : List Text → List (Text × ℕ) → Result (List ℕ)
unfolding take_position placed
reorder_loop [] positions = ok []
reorder_loop (d ∷ ds) positions = placed (take_position d positions) (λ left. reorder_loop ds left)

unfoldable pub texts_eq : List Text → List Text → Bool
unfolding text_eq
texts_eq [] [] = true
texts_eq [] (y ∷ ys) = false
texts_eq (x ∷ xs) [] = false
texts_eq (x ∷ xs) (y ∷ ys) = text_eq x y && texts_eq xs ys

-- `_reorder_map`; the positions themselves where the code returns `None`.
unfoldable pub reorder_map : List Text → List Text → Result (List ℕ)
unfolding texts_eq slots_from reorder_loop numbered
reorder_map original modified =
    if texts_eq original modified
    then ok (slots_from 0 (length original))
    else reorder_loop original (numbered 0 modified)
