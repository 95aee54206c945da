-- ===== src/Text/Ipv6/Spans.antt =====
-- The run of zero groups that `Display` finds is one: it cuts the groups in front of it from those
-- behind it.
use mathlib.Core.Path.{subst}
use swornmail.Prelude.{
  ℕ, zero, suc, ◌+◌, ◌≤◌, ◌<◌, ◌≡◌, ◌≢◌, refl, sym, ap, ◌∙◌, List, [], ◌∷◌, ◌++◌, arith, ltb, ◌==◌,
  take, length, Bool-cases, inl, inr,
}
use swornmail.Text.Ipv6.{zeros}
use swornmail.Text.Ipv6.Display.{Span, no_span, extend, longer, longest_zeros, drop}

abbrev nth : ℕ → List ℕ → ℕ
nth i [] = 1
nth zero (g ∷ gs) = g
nth (suc i) (g ∷ gs) = nth i gs

-- All groups of the span are zero.
record IsRun (z : Span) (gs : List ℕ) : Type 0 where
  inside : z.start + z.len ≤ length gs
  zero_there : (j : ℕ) → z.start ≤ j → j < z.start + z.len → nth j gs ≡ 0

IsRun-no_span : (gs : List ℕ) → IsRun no_span gs
IsRun-no_span gs = record { inside = omega arith; zero_there = λ j lo hi. absurd (omega arith) }

-- The run so far ends where the loop stands.
abbrev Touches : ℕ → Span → Type 0
Touches i current = (current.len ≢ 0) → current.start + current.len ≡ i

extend-IsRun :
    (i : ℕ) (current : Span) (gs : List ℕ)
    → i < length gs
    → nth i gs ≡ 0
    → Touches i current
    → IsRun current gs
    → IsRun (extend i current) gs × Touches (i + 1) (extend i current)
extend-IsRun i current gs room e touch run = elim (Bool-cases (current.len == 0)) [
  | inl fresh ↦ rw fresh (
    record {
      inside = omega arith;
      zero_there = λ j lo hi. let same : i ≡ j = omega arith in subst (λ k. nth k gs ≡ 0) same e;
    },
    λ h. omega arith,
  )
  | inr grown ↦
      let at = touch (λ z. ground arith) in
      rw grown (
        record {
          inside = omega (arith, at, room);
          zero_there = λ j lo hi. elim (Bool-cases (ltb j i)) [
            | inl old ↦ run.zero_there j lo (ground (arith, at))
            | inr new ↦ let same : i ≡ j = ground (arith, at) in subst (λ k. nth k gs ≡ 0) same e
          ];
        },
        λ h. omega (arith, at),
      )
]

longer-IsRun :
    (current longest : Span) (gs : List ℕ)
    → IsRun current gs
    → IsRun longest gs
    → IsRun (longer current longest) gs
longer-IsRun current longest gs c l = elim (Bool-cases (ltb longest.len current.len)) [
  | inl e ↦ rw e c
  | inr e ↦ rw e l
]

-- What is left to walk is the end of all groups.
abbrev Behind : ℕ → List ℕ → List ℕ → Type 0
Behind i gs groups = ((j : ℕ) → nth (i + j) groups ≡ nth j gs) × (i + length gs ≡ length groups)

Behind-tail : (i g : ℕ) (gs groups : List ℕ) → Behind i (g ∷ gs) groups → Behind (i + 1) gs groups
Behind-tail i g gs groups (same, size) = (
  λ j. let e : i + 1 + j ≡ i + suc j = omega arith in ap (λ k. nth k groups) e ∙ same (suc j),
  omega arith,
)

longest_zeros-IsRun :
    (gs groups : List ℕ) (i : ℕ) (current longest : Span)
    → Behind i gs groups
    → Touches i current
    → IsRun current groups
    → IsRun longest groups
    → IsRun (longest_zeros i current longest gs) groups
unfolding longest_zeros
longest_zeros-IsRun [] groups i current longest b touch c l = l
longest_zeros-IsRun (g ∷ gs) groups i current longest b touch c l = elim (Bool-cases (g == 0)) [
  | inl is_zero ↦
      let here : nth i groups ≡ 0 =
        let at : i ≡ i + 0 = omega arith in ap (λ k. nth k groups) at ∙ b.0 0 ∙ ground arith in
      let (run, touch') = extend-IsRun i current groups (omega (arith, b.1)) here touch c in
      rw is_zero (
        longest_zeros-IsRun gs groups (i + 1) (extend i current) (longer (extend i current) longest)
          (Behind-tail i g gs groups b) touch' run
          (longer-IsRun (extend i current) longest groups run l))
  | inr other ↦ rw other (
      longest_zeros-IsRun gs groups (i + 1) no_span longest (Behind-tail i g gs groups b)
        (λ h. absurd (h refl)) (IsRun-no_span groups) l)
]

drop-add {ℓ} : {A : Type ℓ} (s n : ℕ) (xs : List A) → drop (s + n) xs ≡ drop n (drop s xs)
drop-add zero n xs = let e : zero + n ≡ n = omega arith in ap (λ k. drop k xs) e
drop-add (suc s) zero [] = let e : suc s + 0 ≡ suc s = omega arith in ap (λ k. drop k []) e
drop-add (suc s) (suc n) [] =
    let e : suc s + suc n ≡ suc (s + suc n) = omega arith in ap (λ k. drop k []) e
drop-add (suc s) n (x ∷ xs) =
    let e : suc s + n ≡ suc (s + n) = omega arith in ap (λ k. drop k (x ∷ xs)) e ∙ drop-add s n xs

run_start :
    (n : ℕ) (gs : List ℕ)
    → n ≤ length gs
    → ((j : ℕ) → j < n → nth j gs ≡ 0)
    → gs ≡ zeros n ++ drop n gs
unfolding zeros
run_start zero gs h f = refl
run_start (suc n) [] h f = absurd (omega arith)
run_start (suc n) (g ∷ gs) h f =
    let first = f 0 (omega arith) in
    ap (◌∷◌ g) (run_start n gs (omega arith) (λ j lt. f (suc j) (omega arith)))
    ∙ ap (λ x. x ∷ (zeros n ++ drop n gs)) first

run_cut :
    (s n : ℕ) (gs : List ℕ)
    → s + n ≤ length gs
    → ((j : ℕ) → s ≤ j → j < s + n → nth j gs ≡ 0)
    → gs ≡ take s gs ++ (zeros n ++ drop n (drop s gs))
run_cut zero n gs h f = run_start n gs (omega arith) (λ j lt. f j (omega arith) (omega arith))
run_cut (suc s) n [] h f = absurd (omega arith)
run_cut (suc s) n (g ∷ gs) h f =
    ap (◌∷◌ g) (run_cut s n gs (omega arith) (λ j lo hi. f (suc j) (omega arith) (omega arith)))

-- The groups are those in front of the span, its zeros, and those behind it.
pub longest_zeros-cut :
    (gs : List ℕ) (z : Span)
    → z ≡ longest_zeros 0 no_span no_span gs
    → (z.start + z.len ≤ length gs)
      × (gs ≡ take z.start gs ++ (zeros z.len ++ drop (z.start + z.len) gs))
longest_zeros-cut gs z e =
    let found =
      longest_zeros-IsRun gs gs 0 no_span no_span
        (λ j. ap (λ k. nth k gs) (omega arith), omega arith) (λ h. absurd (h refl))
        (IsRun-no_span gs) (IsRun-no_span gs) in
    let run = subst (λ w. IsRun w gs) (sym e) found in
    (
      run.inside,
      run_cut z.start z.len gs run.inside run.zero_there
          ∙ ap (λ t. take z.start gs ++ (zeros z.len ++ t)) (sym (drop-add z.start z.len gs)),
    )
