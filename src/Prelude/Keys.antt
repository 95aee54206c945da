-- ===== src/Prelude/Keys.antt =====
-- Lists of pairs whose keys are distinct.
use mathlib.Core.Path.{sym}
use mathlib.Core.Logic.{◌≢◌}
use mathlib.Core.List.{List, [], ◌∷◌, ◌++◌}
use swornmail.Prelude.Lists.{All, All-append}

module _ {K V : Type 0} where
  abbrev pub NewKey : K → List (K × V) → Type 0
  NewKey key = All (λ (k, v). k ≢ key)

  abbrev pub DistinctKeys : List (K × V) → Type 0
  DistinctKeys [] = Unit
  DistinctKeys ((k, v) ∷ es) = NewKey k es × DistinctKeys es

  pub DistinctKeys-concat :
      (es : List (K × V)) (k : K) (v : V)
      → DistinctKeys es
      → NewKey k es
      → DistinctKeys (es ++ (k, v) ∷ [])
  DistinctKeys-concat [] k v d h = (tt, tt)
  DistinctKeys-concat ((n, w) ∷ es) k v d h = (
    All-append (λ (m, x). m ≢ n) es ((k, v) ∷ []) d.0 ((λ e. h.0 (sym e)), tt),
    DistinctKeys-concat es k v d.1 h.1,
  )

  All-middle :
      (P : K × V → Type 0) (es : List (K × V)) (e : K × V) (more : List (K × V))
      → All P (es ++ e ∷ more)
      → P e
  All-middle P [] e more h = h.0
  All-middle P (x ∷ es) e more h = All-middle P es e more h.1

  -- A key behind others with distinct keys is none of theirs.
  pub DistinctKeys-NewKey :
      (es : List (K × V)) (k : K) (v : V) (more : List (K × V))
      → DistinctKeys (es ++ (k, v) ∷ more)
      → NewKey k es
  DistinctKeys-NewKey [] k v more d = tt
  DistinctKeys-NewKey ((n, w) ∷ es) k v more d = (
    (λ e. All-middle (λ (m, x). m ≢ n) es (k, v) more d.0 (sym e)),
    DistinctKeys-NewKey es k v more d.1,
  )
