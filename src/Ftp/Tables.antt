-- ===== src/Ftp/Tables.antt =====
-- A dictionary by device index, in the order its keys were first stored. A missing key raises a `KeyError`.
use pacsys.Prelude.{
  ℕ, ◌≡◌, ◌≢◌, List, [], ◌∷◌, arith, ◌==◌, if◌then◌else◌, Result, ok, err, key_error,
}

module _ {B : Type 0} where
  unfoldable pub stored : ℕ → B → List (ℕ × B) → List (ℕ × B)
  stored di v [] = (di, v) ∷ []
  stored di v ((k, w) ∷ rest) =
      let later = stored di v rest in if k == di then (k, v) ∷ rest else (k, w) ∷ later

  unfoldable pub found : ℕ → List (ℕ × B) → Result B
  found di [] = err key_error
  found di ((k, w) ∷ rest) = let later = found di rest in if k == di then ok w else later

  -- `pop(di, None)`.
  unfoldable pub removed : ℕ → List (ℕ × B) → List (ℕ × B)
  removed di [] = []
  removed di ((k, w) ∷ rest) =
      let later = removed di rest in if k == di then rest else (k, w) ∷ later

  -- A key that was stored has its value, and the others keep theirs.
  pub found-stored : (di : ℕ) (v : B) (t : List (ℕ × B)) → found di (stored di v t) ≡ ok v
  unfolding found stored
  found-stored di v [] = ground arith
  found-stored di v ((k, w) ∷ t) = ground (arith, found-stored di v t)

  pub found-stored_other :
      (di e : ℕ) (v : B) (t : List (ℕ × B)) → di ≢ e → found e (stored di v t) ≡ found e t
  unfolding found stored
  found-stored_other di e v [] h = ground arith
  found-stored_other di e v ((k, w) ∷ t) h = ground (arith, found-stored_other di e v t h)
