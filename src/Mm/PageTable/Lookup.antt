-- ===== src/Mm/PageTable/Lookup.antt =====
-- Looking pages up in the tables of page_table.rs, and taking them out.
use t_core.Base.{
  ℕ, ◌≡◌, ◌≢◌, ◌<◌, ◌≤◌, ◌+◌, ◌*◌, ◌^◌, ◌%◌, true, Option, none, some, arith, if◌then◌else◌, ◌==◌,
  refl, sym, ap, ◌∙◌, Bool-cases, Option-cases, inl, inr, ◌>>=◌, ==-self, ==-true,
}
use t_core.Mm.Address.{indexes, floor}
use t_core.Mm.FrameAllocator.Supply.{available}
use t_core.Mm.PageTable.{
  PageTable, Memory, find_pte, map_page, unmap_page, translate, translate_va, is_valid, pte, or_v,
  write_entry, empty,
}
use t_core.Mm.PageTable.Entries.{is_valid-empty, of-pte}
use t_core.Mm.PageTable.Tree.{child, look, Role}
use t_core.Mm.PageTable.Walk.{IsTree}
use t_core.Mm.PageTable.Mapping.{
  WellFormed, mapping, written_lem, look-found, entry-valid, map_page-mapping,
  find_pte_create-Found, map_page-step,
}

some-ne-none : (b : ℕ) → some b ≢ none
some-ne-none b h = cc

-- The tables that lead to a valid entry.
mapped-path :
    (e : ℕ → ℕ → ℕ) (r i j k b : ℕ)
    → look e r i j k ≡ some b
    → (p : ℕ) × (t : ℕ) × (child e r i ≡ some p)
      × (child e p j ≡ some t)
      × (is_valid (e t k) ≡ true)
      × (e t k ≡ b)
mapped-path e r i j k b h = elim (Option-cases (child e r i)) [
  | inl g ↦ absurd (some-ne-none b (sym h ∙ rw g refl))
  | inr (p, g) ↦ elim (Option-cases (child e p j)) [
    | inl g' ↦ absurd (some-ne-none b (sym h ∙ rw g (rw g' refl)))
    | inr (t, g') ↦
        let (v, same) = entry-valid (e t k) b (sym (look-found e r p t i j k g g') ∙ h) in
        (p, t, g, g', v, same)
  ]
]

find_pte-path :
    (pt : PageTable) (vpn : ℕ) (m : Memory) (p t : ℕ)
    → child m.entries pt.root_ppn (indexes vpn).0 ≡ some p
    → child m.entries p (indexes vpn).1 ≡ some t
    → find_pte pt vpn m ≡ some (t, (indexes vpn).2)
unfolding find_pte
find_pte-path pt vpn m p t g g' = rw g (rw g' refl)

-- `translate` gives the entry of a page that is mapped, and never a valid entry for one that is not.
pub translate-mapping :
    (pt : PageTable) (m : Memory) (vpn : ℕ)
    → mapping pt m vpn ≡ (do bits ← translate pt vpn m; if is_valid bits then some bits else none)
unfolding translate find_pte
translate-mapping pt m vpn = elim (Option-cases (child m.entries pt.root_ppn (indexes vpn).0)) [
  | inl g ↦ rw g refl
  | inr (p, g) ↦ elim (Option-cases (child m.entries p (indexes vpn).1)) [
    | inl g' ↦ rw g (rw g' refl)
    | inr (t, g') ↦ rw g (rw g' refl)
  ]
]

-- `map` panics on a page that is mapped, whatever it is to be mapped to. The condition is that two
-- frames are left.
pub map_page_twice :
    (l : ℕ) (pt : PageTable) (m : Memory) (vpn ppn flags : ℕ) {bits : ℕ}
    → WellFormed l pt m
    → 2 ≤ available m.allocator
    → mapping pt m vpn ≡ some bits
    → map_page pt vpn ppn flags m ≡ none
map_page_twice l pt m vpn ppn flags {bits} (role, t) supply h =
    let (table, pt', m', e, f) = find_pte_create-Found l role pt m vpn t supply in
    let k : ℕ = (indexes vpn).2 in
    let valid =
      entry-valid (m'.entries table k) bits (
        sym (look-found m'.entries _ f.middle table _ _ k f.first f.second)
        ∙ (f.looks _ _ _ ∙ h)) in
    map_page-step pt vpn ppn flags m table k pt' m' e ∙ rw valid.0 refl

unmap_page-step :
    (pt : PageTable) (vpn : ℕ) (m : Memory) (t k : ℕ)
    → find_pte pt vpn m ≡ some (t, k)
    → is_valid (m.entries t k) ≡ true
    → unmap_page pt vpn m ≡ some (write_entry t k empty m)
unfolding unmap_page
unmap_page-step pt vpn m t k e v = rw e (rw v refl)

pub unmap_page-IsTree :
    (l : ℕ) (role : ℕ → Role) (pt : PageTable) (m : Memory) (vpn : ℕ) {bits : ℕ}
    → IsTree l role pt.root_ppn m
    → vpn < 2 ^ 27
    → mapping pt m vpn ≡ some bits
    → (m' : Memory) × (unmap_page pt vpn m ≡ some m')
      × IsTree l role pt.root_ppn m'
      × (m'.allocator ≡ m.allocator)
      × ((v : ℕ) → v < 2 ^ 27 → mapping pt m' v ≡ (if v == vpn then none else mapping pt m v))
unmap_page-IsTree l role pt m vpn {bits} tree hv h =
    let (p, t, g, g', v, same) = mapped-path m.entries pt.root_ppn _ _ (indexes vpn).2 bits h in
    let (tree', maps) = written_lem l role pt.root_ppn vpn p t empty m tree hv g g' in
    (
      write_entry t (indexes vpn).2 empty m,
      unmap_page-step pt vpn m t (indexes vpn).2 (find_pte-path pt vpn m p t g g') v,
      tree',
      refl,
      λ w u. maps w u ∙ rw is_valid-empty refl,
    )

-- `unmap` takes a page that is mapped out of the map, and no other page is mapped otherwise than before;
-- no frame changes hands.
pub unmap_page-mapping :
    (l : ℕ) (pt : PageTable) (m : Memory) (vpn : ℕ) {bits : ℕ}
    → WellFormed l pt m
    → vpn < 2 ^ 27
    → mapping pt m vpn ≡ some bits
    → (m' : Memory) × (unmap_page pt vpn m ≡ some m')
      × WellFormed l pt m'
      × (m'.allocator ≡ m.allocator)
      × ((v : ℕ) → v < 2 ^ 27 → mapping pt m' v ≡ (if v == vpn then none else mapping pt m v))
unmap_page-mapping l pt m vpn (role, tree) hv h =
    let (m', e, tree', same, maps) = unmap_page-IsTree l role pt m vpn tree hv h in
    (m', e, (role, tree'), same, maps)

-- `translate_va` gives each address of a mapped page its place in the frame: the offset stays. The
-- conditions are that the frame's number has 44 bits, and the address 39.
pub translate_va-mapping :
    (pt : PageTable) (m : Memory) (va ppn flags : ℕ)
    → va < 2 ^ 39
    → ppn < 2 ^ 44
    → flags < 2 ^ 8
    → mapping pt m (floor va) ≡ some (pte ppn flags)
    → translate_va pt va m ≡ some (ppn * 4096 + va % 4096)
unfolding translate_va
translate_va-mapping pt m va ppn flags ha hp hf h =
    let (p, t, g, g', v, same) =
      mapped-path m.entries pt.root_ppn _ _ (indexes (floor va)).2 (pte ppn flags) h in
    rw (find_pte-path pt (floor va) m p t g g')
      (rw same (ap some (omega (arith, (of-pte ppn flags hp hf).0))))

place :
    (pt : PageTable) (m : Memory) (vpn ppn flags offset : ℕ)
    → offset < 4096
    → vpn < 2 ^ 27
    → ppn < 2 ^ 44
    → flags < 2 ^ 8
    → mapping pt m vpn ≡ some (pte ppn flags)
    → translate_va pt (vpn * 4096 + offset) m ≡ some (ppn * 4096 + offset)
place pt m vpn ppn flags offset h hv hp hf mapped =
    let page : floor (vpn * 4096 + offset) ≡ vpn = omega arith in
    let rest : (vpn * 4096 + offset) % 4096 ≡ offset = omega arith in
    translate_va-mapping pt m (vpn * 4096 + offset) ppn flags (omega arith) hp hf
      (ap (mapping pt m) page ∙ mapped)
    ∙ ap (λ o. some (ppn * 4096 + o)) rest

restored :
    (v w : ℕ) (f g : ℕ → Option ℕ) (o : Option ℕ)
    → f v ≡ (if v == w then o else g v)
    → g w ≡ none
    → (if v == w then none else f v) ≡ g v
restored v w f g o h k = elim (Bool-cases (v == w)) [
  | inl e ↦ rw (==-true v w e) (rw (==-self w) (sym k))
  | inr e ↦ rw e (rw e at h)
]

-- A page that is mapped and then unmapped leaves every page as it was, and between the two each address
-- of the page has its place in the frame. The conditions are those of `map`.
pub unmap_page-map_page :
    (l : ℕ) (pt : PageTable) (m : Memory) (vpn ppn flags : ℕ)
    → WellFormed l pt m
    → 2 ≤ available m.allocator
    → vpn < 2 ^ 27
    → ppn < 2 ^ 44
    → flags < 2 ^ 8
    → mapping pt m vpn ≡ none
    → (pt' : PageTable) × (m' : Memory) × (m'' : Memory) × (map_page pt vpn ppn flags m
        ≡ some (pt', m'))
      × ((offset : ℕ)
          → offset < 4096
          → translate_va pt' (vpn * 4096 + offset) m' ≡ some (ppn * 4096 + offset))
      × (unmap_page pt' vpn m' ≡ some m'')
      × ((v : ℕ) → v < 2 ^ 27 → mapping pt' m'' v ≡ mapping pt m v)
unmap_page-map_page l pt m vpn ppn flags w supply hv hp hf free =
    let (pt', m', e, w', root, _, maps) =
      map_page-mapping l pt m vpn ppn flags w supply hv hp hf free in
    let flags' : or_v flags < 2 ^ 8 = omega arith in
    let mapped : mapping pt' m' vpn ≡ some (pte ppn (or_v flags)) =
      maps vpn hv ∙ rw (==-self vpn) refl in
    let (m'', e', _, _, maps') = unmap_page-mapping l pt' m' vpn w' hv mapped in
    (
      pt',
      m',
      m'',
      e,
      λ offset h. place pt' m' vpn ppn (or_v flags) offset h hv hp flags' mapped,
      e',
      λ v u. maps' v u ∙ restored v vpn (mapping pt' m') (mapping pt m) _ (maps v u) free,
    )
