-- ===== src/Task/Process/Counting.antt =====
-- Sums over processes, and how often one is among the children.
use t_core.Base.{
  ℕ, zero, suc, ◌+◌, ◌<◌, ◌≤◌, ◌≡◌, refl, false, List, [], ◌∷◌, ◌++◌, arith, ◌==◌, Bool-cases, inl,
  inr, ==-true, ap,
}
use t_core.Task.Process.{count, total}

pub count-append : (c : ℕ) (xs ys : List ℕ) → count c (xs ++ ys) ≡ count c xs + count c ys
unfolding count
count-append c [] ys = omega arith
count-append c (x ∷ xs) ys = let i = count-append c xs ys in ground arith

pub total-same : (f g : ℕ → ℕ) (n : ℕ) → ((a : ℕ) → a < n → f a ≡ g a) → total f n ≡ total g n
unfolding total
total-same f g zero h = refl
total-same f g (suc n) h =
    let i = total-same f g n (λ a k. h a (omega arith)) in let e = h n (omega arith) in omega arith

-- A sum in which one term changes.
pub total-change :
    (f g : ℕ → ℕ) (a n : ℕ)
    → a < n
    → ((b : ℕ) → (b == a) ≡ false → f b ≡ g b)
    → total f n + g a ≡ total g n + f a
unfolding total
total-change f g a zero k h = absurd (omega arith)
total-change f g a (suc n) k h = elim (Bool-cases (n == a)) [
  | inl e ↦
      let i = total-same f g n (λ b l. h b (ground arith)) in
      let e' : n ≡ a = ==-true n a e in
      let ef : f n ≡ f a = ap f e' in let eg : g n ≡ g a = ap g e' in omega arith
  | inr e ↦ let i = total-change f g a n (ground arith) h in let e' = h n e in omega arith
]

-- A term of a sum is at most the sum.
pub total-term : (f : ℕ → ℕ) (a n : ℕ) → a < n → f a ≤ total f n
unfolding total
total-term f a zero h = absurd (omega arith)
total-term f a (suc n) h = elim (Bool-cases (n == a)) [
  | inl e ↦ let q : f n ≡ f a = ap f (==-true n a e) in omega arith
  | inr e ↦ let i = total-term f a n (ground arith) in omega arith
]
