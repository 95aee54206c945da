-- ===== src/Text/Split.antt =====
-- `split` and `split_once` undo joining with a separator.
use swornmail.Prelude.{
  ℕ, ◌≡◌, ◌≢◌, refl, ap, ◌∙◌, Bool, true, false, some, List, [], ◌∷◌, ◌++◌, arith, ◌==◌, All,
  Bool-cases, Option-cases, inl, inr,
}
use swornmail.Text.{Bytes, split, split_step, split_once}

-- The octet does not occur.
abbrev pub Lacks : ℕ → Bytes → Type 0
Lacks c = All (λ x. x ≢ c)

abbrev pub join : ℕ → List Bytes → Bytes
join c [] = []
join c (w ∷ []) = w
join c (w ∷ v ∷ ws) = w ++ (c ∷ join c (v ∷ ws))

split_step-ne-nil : (b : Bool) (x : ℕ) (ps : List Bytes) → split_step b x ps ≢ []
split_step-ne-nil true x ps = λ e. cc
split_step-ne-nil false x [] = λ e. cc
split_step-ne-nil false x (p ∷ ps) = λ e. cc

join-split_step :
    (c x : ℕ) (ps : List Bytes) → ps ≢ [] → join c (split_step (x == c) x ps) ≡ x ∷ join c ps
join-split_step c x [] h = absurd (h refl)
join-split_step c x (p ∷ []) h = ground arith
join-split_step c x (p ∷ q ∷ ps) h = ground arith

split_step-Lacks :
    (c x : ℕ) (ps : List Bytes) → All (Lacks c) ps → All (Lacks c) (split_step (x == c) x ps)
split_step-Lacks c x [] h = ground arith
split_step-Lacks c x (p ∷ ps) h = ground arith

pub split-ne-nil : (c : ℕ) (s : Bytes) → split c s ≢ []
unfolding split
split-ne-nil c [] = λ e. cc
split-ne-nil c (x ∷ s) = split_step-ne-nil (x == c) x (split c s)

pub join-split : (c : ℕ) (s : Bytes) → join c (split c s) ≡ s
unfolding split
join-split c [] = refl
join-split c (x ∷ s) =
    join-split_step c x (split c s) (split-ne-nil c s) ∙ ap (◌∷◌ x) (join-split c s)

pub split-Lacks : (c : ℕ) (s : Bytes) → All (Lacks c) (split c s)
unfolding split
split-Lacks c [] = (tt, tt)
split-Lacks c (x ∷ s) = split_step-Lacks c x (split c s) (split-Lacks c s)

-- A piece without the separator is read whole.
pub split-append :
    (c : ℕ) (w rest : Bytes) → Lacks c w → split c (w ++ (c ∷ rest)) ≡ w ∷ split c rest
unfolding split
split-append c [] rest h = ground arith
split-append c (x ∷ w) rest h = ground (arith, split-append c w rest h.1)

pub split_whole : (c : ℕ) (w : Bytes) → Lacks c w → split c w ≡ w ∷ []
unfolding split
split_whole c [] h = refl
split_whole c (x ∷ w) h = ground (arith, split_whole c w h.1)

pub split-join :
    (c : ℕ) (w : Bytes) (ws : List Bytes)
    → All (Lacks c) (w ∷ ws)
    → split c (join c (w ∷ ws)) ≡ w ∷ ws
split-join c w [] h = split_whole c w h.0
split-join c w (v ∷ ws) h = split-append c w _ h.0 ∙ ap (◌∷◌ w) (split-join c v ws h.1)

pub split_once-append :
    (c : ℕ) (w rest : Bytes) → Lacks c w → split_once c (w ++ (c ∷ rest)) ≡ some (w, rest)
unfolding split_once
split_once-append c [] rest h = ground arith
split_once-append c (x ∷ w) rest h = ground (arith, split_once-append c w rest h.1)

-- What `split_once` returns, put together again, is its input, cut at the first separator.
pub split_once-eq-some :
    (c : ℕ) (s : Bytes) {a b : Bytes}
    → split_once c s ≡ some (a, b)
    → (s ≡ a ++ (c ∷ b)) × Lacks c a
unfolding split_once
split_once-eq-some c [] h = cc
split_once-eq-some c (x ∷ s) {a} {b} h = elim (Bool-cases (x == c)) [
  | inl e ↦ ground (arith)
  | inr e ↦ elim (Option-cases (split_once c s)) [
    | inl n ↦ ground (arith)
    | inr ((a', b'), m) ↦ ground (arith, split_once-eq-some c s m)
  ]
]
