-- ===== src/Fs/Descriptors/Sharing.antt =====
-- Which file each descriptor stands for, after calls of syscall/fs.rs.
use t_core.Base.{
  ℕ, zero, suc, ◌<◌, ◌≡◌, ◌≢◌, refl, sym, ◌∙◌, ap, subst, true, false, Option, some, none, List, [],
  ◌∷◌, ◌++◌, arith, length, set, Bool-cases, Option-cases, inl, inr, ==-true, ==-self, ◌==◌, ltb,
  leb, pos, as_isize, get_elem?-set_ne,
}
use t_core.Sync.Calls.{first_empty, in_slot, create_slot, put}
use t_core.Sync.Calls.Slots.{Placed, create_slot-Placed}
use t_core.Fs.Descriptors.{alloc_at, alloc_fd, install, sys_close, sys_pipe, sys_dup, dup_file}

first_empty-within :
    (fd_table : List (Option ℕ)) (fd : ℕ) → first_empty fd_table ≡ some fd → fd < length fd_table
unfolding first_empty
first_empty-within [] fd h = absurd (ground arith)
first_empty-within (none ∷ fd_table) fd h = ground arith
first_empty-within (some file ∷ fd_table) fd h = elim (Option-cases (first_empty fd_table)) [
  | inl e ↦ let k = rw e at h in absurd (ground arith)
  | inr (i, e) ↦ let k = rw e at h in let l = first_empty-within fd_table i e in ground arith
]

set-append :
    (fd_table : List (Option ℕ)) (file : ℕ)
    → set (fd_table ++ none ∷ []) (length fd_table) (some file) ≡ fd_table ++ some file ∷ []
set-append [] file = refl
set-append (x ∷ fd_table) file = ap (◌∷◌ x) (set-append fd_table file)

length-append_one : (fd_table : List (Option ℕ)) → length fd_table < length (fd_table ++ none ∷ [])
length-append_one [] = omega arith
length-append_one (x ∷ fd_table) = let i = length-append_one fd_table in omega arith

-- A file that gets a descriptor is placed as the objects of syscall/sync.rs are.
install-alloc_fd :
    (file : ℕ) (fd_table : List (Option ℕ))
    → ((alloc_fd fd_table).0 ≡ (create_slot file fd_table).0)
      × (install (alloc_fd fd_table).0 file (alloc_fd fd_table).1
          ≡ some (create_slot file fd_table).1)
unfolding alloc_fd alloc_at install create_slot put
install-alloc_fd file fd_table = elim (Option-cases (first_empty fd_table)) [
  | inl e ↦
      let l : ltb (length fd_table) (length (fd_table ++ none ∷ [])) ≡ true =
        (let k = length-append_one fd_table in ground arith) in
      rw e (refl, rw l (ap some (set-append fd_table file)))
  | inr (fd, e) ↦
      let l : ltb fd (length fd_table) ≡ true =
        (let k = first_empty-within fd_table fd e in ground arith) in
      rw e (refl, rw l refl)
]

in_slot-set_self :
    (fd_table : List (Option ℕ)) (fd : ℕ) (file : ℕ)
    → in_slot fd_table fd ≡ some file
    → (fd < length fd_table) × (in_slot (set fd_table fd none) fd ≡ none)
unfolding in_slot
in_slot-set_self [] fd file h = absurd (ground arith)
in_slot-set_self (x ∷ fd_table) zero file h = (omega arith, refl)
in_slot-set_self (x ∷ fd_table) (suc fd) file h =
    let (l, k) = in_slot-set_self fd_table fd file h in (omega arith, k)

-- Closing a descriptor that stands for a file.
pub sys_close-open :
    (fd_table : List (Option ℕ)) (fd file : ℕ)
    → in_slot fd_table fd ≡ some file
    → ((sys_close fd fd_table).0 ≡ pos 0)
      × (in_slot (sys_close fd fd_table).1 fd ≡ none)
      × ((i : ℕ) → fd ≢ i → in_slot (sys_close fd fd_table).1 i ≡ in_slot fd_table i)
unfolding sys_close in_slot
sys_close-open fd_table fd file h =
    let (l, k) = in_slot-set_self fd_table fd file h in
    let n : leb (length fd_table) fd ≡ false = ground arith in
    rw n (rw h (refl, k, λ i d. rw (get_elem?-set_ne fd_table none d) refl))

dup-step :
    (fd_table : List (Option ℕ)) (fd file : ℕ)
    → in_slot fd_table fd ≡ some file
    → sys_dup fd fd_table
      ≡ some (as_isize (pos (create_slot file fd_table).0), (create_slot file fd_table).1)
unfolding sys_dup dup_file
dup-step fd_table fd file h =
    let (l, k) = in_slot-set_self fd_table fd file h in
    let n : leb (length fd_table) fd ≡ false = ground arith in
    let (a, b) = install-alloc_fd file fd_table in rw n (rw h (rw b (rw a refl)))

-- `sys_dup` of a descriptor gives the lowest one that is free, which stands for the same file; all
-- others stand for what they did. Closing either of the two leaves the other, and closing the new
-- one leaves every descriptor as it was.
pub sys_close-sys_dup :
    (fd_table : List (Option ℕ)) (fd file : ℕ)
    → in_slot fd_table fd ≡ some file
    → (new_fd : ℕ) × (fd_table' : List (Option ℕ)) × (sys_dup fd fd_table
        ≡ some (as_isize (pos new_fd), fd_table'))
      × Placed file fd_table new_fd fd_table'
      × (in_slot (sys_close fd fd_table').1 new_fd ≡ some file)
      × ((i : ℕ) → in_slot (sys_close new_fd fd_table').1 i ≡ in_slot fd_table i)
sys_close-sys_dup fd_table fd file h =
    let new_fd = (create_slot file fd_table).0 in
    let fd_table' = (create_slot file fd_table).1 in
    let p : Placed file fd_table new_fd fd_table' = create_slot-Placed file fd_table in
    let apart : fd ≢ new_fd = λ e.
      let q : in_slot fd_table new_fd ≡ some file =
        subst (λ x. in_slot fd_table x ≡ some file) e h in
      let f = p.free in ground arith in
    let old = sys_close-open fd_table' fd file (p.others fd apart ∙ h) in
    let new = sys_close-open fd_table' new_fd file p.holds in
    (
      new_fd,
      fd_table',
      dup-step fd_table fd file h,
      p,
      old.2 new_fd apart ∙ p.holds,
      λ i. elim (Bool-cases (new_fd == i)) [
        | inl e ↦
            subst (λ x. in_slot (sys_close new_fd fd_table').1 x ≡ in_slot fd_table x)
              (==-true new_fd i e) (new.1 ∙ sym p.free)
        | inr e ↦
            let n : new_fd ≢ i = λ q.
              let k = ==-self new_fd in
              let e' : (new_fd == new_fd) ≡ false = subst (λ x. (new_fd == x) ≡ false) (sym q) e in
              ground arith in
            new.2 i n ∙ p.others i (λ q. n (sym q))
      ],
    )

-- When both words of the caller are mapped, `sys_pipe` does not panic. It gives the two ends two
-- descriptors that were free, the lowest and the lowest but one, and writes them to the two words, the
-- one of the read end first; all other descriptors stand for what they did.
pub sys_pipe-Placed :
    (fd_table : List (Option ℕ)) (pipe_read pipe_write first second : ℕ)
    → (read_fd write_fd : ℕ) × (fd_table' fd_table'' : List (Option ℕ)) × (sys_pipe pipe_read
          pipe_write
          (some first)
          (some second)
          fd_table
        ≡ some ((first, read_fd) ∷ (second, write_fd) ∷ [], fd_table''))
      × Placed pipe_read fd_table read_fd fd_table'
      × Placed pipe_write fd_table' write_fd fd_table''
      × (read_fd ≢ write_fd)
      × (in_slot fd_table'' read_fd ≡ some pipe_read)
unfolding sys_pipe
sys_pipe-Placed fd_table pipe_read pipe_write first second =
    let r = create_slot pipe_read fd_table in
    let w = create_slot pipe_write r.1 in
    let p : Placed pipe_read fd_table r.0 r.1 = create_slot-Placed pipe_read fd_table in
    let q : Placed pipe_write r.1 w.0 w.1 = create_slot-Placed pipe_write r.1 in
    let apart : r.0 ≢ w.0 = λ e.
      let k : in_slot r.1 w.0 ≡ some pipe_read =
        subst (λ x. in_slot r.1 x ≡ some pipe_read) e p.holds in
      let f = q.free in ground arith in
    let (a, b) = install-alloc_fd pipe_read fd_table in
    let (c, d) = install-alloc_fd pipe_write r.1 in
    (r.0, w.0, r.1, w.1, rw b (rw d (rw (a, c) refl)), p, q, apart, q.others r.0 apart ∙ p.holds)
