-- ===== src/Mm/PageTable/Tree.antt =====
-- The tables of page_table.rs as a tree of pages, and what a page number leads to in it.
use t_core.Base.{
  ℕ, ◌≡◌, ◌<◌, ◌^◌, ◌>>=◌, Bool, true, false, Option, none, some, arith, if◌then◌else◌, ◌==◌,
  Option-cases, inl, inr, ◌&&◌, Bool-cases, ◌∙◌,
}
use mathlib.Core.Path.{ap₂, sym, ap}
use t_core.Mm.PageTable.{is_valid, ppn_of, pte}
use t_core.Mm.PageTable.Entries.{is_valid-pte, of-pte, is_valid-empty}

-- What a page is used for: the root, the table of a first index, that of two indexes, or no table.
pub data Role : Type 0 where
  other root : Role
  mid : ℕ → Role
  leaf : ℕ → ℕ → Role

abbrev pub below : Role → ℕ → Role
below root i = mid i
below (mid i) j = leaf i j
below _ j = other

-- A table whose entries lead to tables.
abbrev pub is_inner : Role → Bool
is_inner root = true
is_inner (mid i) = true
is_inner _ = false

abbrev pub Entries : Type 0
Entries = ℕ → ℕ → ℕ

-- An entry of an inner table leads to the page that has the role below it.
pub record Shape (role : ℕ → Role) (r : ℕ) (e : Entries) : Type 0 where
  pub at_root : role r ≡ root
  pub leads :
      (p i : ℕ)
      → is_inner (role p) ≡ true
      → is_valid (e p i) ≡ true
      → role (ppn_of (e p i)) ≡ below (role p) i

abbrev pub child : Entries → ℕ → ℕ → Option ℕ
child e p i = if is_valid (e p i) then some (ppn_of (e p i)) else none

abbrev pub entry : Entries → ℕ → ℕ → Option ℕ
entry e p i = if is_valid (e p i) then some (e p i) else none

-- The valid entry that three indexes lead to.
abbrev pub look_below : Entries → ℕ → ℕ → ℕ → Option ℕ
look_below e p b c = do p2 ← child e p b; entry e p2 c

abbrev pub look : Entries → ℕ → ℕ → ℕ → ℕ → Option ℕ
look e r a b c = do p1 ← child e r a; look_below e p1 b c

abbrev pub put : ℕ → ℕ → ℕ → Entries → Entries
put q k bits e p i = if p == q then (if i == k then bits else e p i) else e p i

abbrev pub clear : ℕ → Entries → Entries
clear p e q i = if q == p then 0 else e q i

-- The entries after a new table at `p` is hung below entry `k` of `q`.
abbrev pub grown : ℕ → ℕ → ℕ → Entries → Entries
grown q k p e = put q k (pte p 1) (clear p e)

abbrev pub assign : ℕ → Role → (ℕ → Role) → ℕ → Role
assign p r role q = if q == p then r else role q

-- The child of an inner table has the role below it.
pub child-role :
    {role : ℕ → Role} {r : ℕ} {e : Entries} (p i c : ℕ)
    → Shape role r e
    → is_inner (role p) ≡ true
    → child e p i ≡ some c
    → role c ≡ below (role p) i
child-role p i c s h k = ground (arith, s.leads p i)

module _ {role : ℕ → Role} {r : ℕ} (q k p : ℕ) (e : Entries) (s : Shape role r e)
    (inner : is_inner (role q) ≡ true) (missing : is_valid (e q k) ≡ false) (fresh : role p ≡ other)
    (small : p < 2 ^ 44) where
  new_entry : (is_valid (pte p 1) ≡ true) × (ppn_of (pte p 1) ≡ p)
  new_entry = (is_valid-pte p 0 small (omega arith), (of-pte p 1 small (omega arith)).0)

  -- Where each entry leads now.
  pub child-grown_lem :
      (x i : ℕ)
      → child (grown q k p e) x i ≡ (
          if x == q
          then (if i == k then some p else child e x i)
          else if x == p
          then none
          else child e x i)
  child-grown_lem x i = let n = new_entry in ground (arith, is_valid-empty)

  pub child-grown : child (grown q k p e) q k ≡ some p
  child-grown = ground (arith, child-grown_lem q k)

  pub grown-Shape : Shape (assign p (below (role q) k) role) r (grown q k p e)
  grown-Shape = record {
    at_root = ground (arith, s.at_root);
    leads = λ x i h v. let n = new_entry in ground (arith, is_valid-empty, s.leads x i);
  }

  entry-grown :
      (x c : ℕ)
      → is_inner (role x) ≡ false
      → entry (grown q k p e) x c ≡ (if x == p then none else entry e x c)
  entry-grown x c h = ground (arith, is_valid-empty)

  look_below-new : (b c : ℕ) → look_below (grown q k p e) p b c ≡ none
  look_below-new b c = ground (arith, is_valid-empty)

  look_below-grown :
      (x b c i : ℕ) → role x ≡ mid i → look_below (grown q k p e) x b c ≡ look_below e x b c
  look_below-grown x b c i h = elim (Option-cases (child e x b)) [
    | inl g ↦ rw (child-grown_lem x b) (ground (arith, entry-grown p c))
    | inr (y, g) ↦
        let role_y : role y ≡ leaf i b = ground (arith, child-role x b y s) in
        rw (child-grown_lem x b) (ground (arith, entry-grown y c))
  ]

  pub look-grown : (a b c : ℕ) → look (grown q k p e) r a b c ≡ look e r a b c
  look-grown a b c = elim (Option-cases (child e r a)) [
    | inl g ↦ rw (child-grown_lem r a) (ground (arith, s.at_root, look_below-new b c))
    | inr (p1, g) ↦
        let role_p1 : role p1 ≡ mid a = ground (arith, child-role r a p1 s, s.at_root) in
        rw (child-grown_lem r a) (ground (arith, s.at_root, look_below-grown p1 b c a role_p1))
  ]

-- A write to the entry `k` of the last table `t` that `i` and `j` lead to.
module _ {role : ℕ → Role} {r : ℕ} (i j k p t bits : ℕ) (e : Entries) (s : Shape role r e)
    (first : child e r i ≡ some p) (second : child e p j ≡ some t) where
  role-p : role p ≡ mid i
  role-p = ground (arith, child-role r i p s, s.at_root)

  role-t : role t ≡ leaf i j
  role-t = ground (arith, child-role p j t s, role-p)

  pub written-Shape : Shape role r (put t k bits e)
  written-Shape = record {
    at_root = s.at_root;
    leads = λ x y h v. ground (arith, s.leads x y, role-t);
  }

  child-written : (x y : ℕ) → is_inner (role x) ≡ true → child (put t k bits e) x y ≡ child e x y
  child-written x y h = ground (arith, role-t)

  same_table :
      (a b x y : ℕ)
      → role y ≡ leaf a b
      → child e r a ≡ some x
      → child e x b ≡ some y
      → (y == t) ≡ (a == i && b == j)
  same_table a b x y h g g' = elim (Bool-cases (a == i && b == j)) [
    | inl u ↦
        let v : a ≡ i = ground arith in
        let w : b ≡ j = ground arith in
        let some_p : some x ≡ some p = sym g ∙ ap (child e r) v ∙ first in
        let m : x ≡ p = cc in
        let some_t : some y ≡ some t = sym g' ∙ ap₂ (child e) m w ∙ second in ground arith
    | inr u ↦ ground (arith, role-t)
  ]

  differs : (a : ℕ) → child e r a ≡ none → (a == i) ≡ false
  differs a g = elim (Bool-cases (a == i)) [
    | inl u ↦
        let v : a ≡ i = ground arith in
        let n : none ≡ some p = sym g ∙ ap (child e r) v ∙ first in absurd (cc)
    | inr u ↦ u
  ]

  none_at : (a b x : ℕ) → child e r a ≡ some x → child e x b ≡ none → (a == i && b == j) ≡ false
  none_at a b x g g' = elim (Bool-cases (a == i && b == j)) [
    | inl u ↦
        let v : a ≡ i = ground arith in
        let w : b ≡ j = ground arith in
        let some_p : some x ≡ some p = sym g ∙ ap (child e r) v ∙ first in
        let m : x ≡ p = cc in
        let n : none ≡ some t = sym g' ∙ ap₂ (child e) m w ∙ second in absurd (cc)
    | inr u ↦ u
  ]

  pub look-written :
      (a b c : ℕ)
      → look (put t k bits e) r a b c ≡ (
          if a == i && (b == j && c == k)
          then (if is_valid bits then some bits else none)
          else look e r a b c)
  look-written a b c = elim (Option-cases (child e r a)) [
    | inl g ↦
        let other : (a == i) ≡ false = differs a g in
        rw (child-written r a (ground (arith, s.at_root))) (rw g (ground arith))
    | inr (p1, g) ↦
        let role_p1 : role p1 ≡ mid a = ground (arith, child-role r a p1 s, s.at_root) in
        elim (Option-cases (child e p1 b)) [
          | inl g' ↦
              let other : (a == i && b == j) ≡ false = none_at a b p1 g g' in
              rw (child-written r a (ground (arith, s.at_root)))
                (rw g (rw (child-written p1 b (ground arith)) (rw g' (ground arith))))
          | inr (y, g') ↦
              let role_y : role y ≡ leaf a b = ground (arith, child-role p1 b y s) in
              let here : (y == t) ≡ (a == i && b == j) = same_table a b p1 y role_y g g' in
              rw (child-written r a (ground (arith, s.at_root)))
                (rw g (rw (child-written p1 b (ground arith)) (rw g' (ground arith))))
        ]
  ]
