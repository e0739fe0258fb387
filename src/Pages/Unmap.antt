-- ===== src/Pages/Unmap.antt =====
-- unmap_no_free: a page loses its entry, and its frame stays in use.
use cs58final_project.Prelude.{
  ℕ, ◌-◌, ◌≤◌, ◌<◌, ◌≡◌, refl, true, false, not, ◌&&◌, arith, some, ◌==◌, ltb, if◌then◌else◌,
  length, set, length-set,
}
use cs58final_project.Prelude.Arrays.{get_or-set}
use cs58final_project.Pages.{Pte, zero_pte, entry, Space, unmap_no_free}
use cs58final_project.Pages.Laws.{Mapped}

module _ (base : ℕ) where
  -- `s'` is `s` without the page at index `i`
  pub record Unmaps (s s' : Space) (i : ℕ) : Type 0 where
    pub mapped : Mapped base s'
    pub frames : s'.frames ≡ s.frames
    pub size : length s'.pt ≡ length s.pt
    pub entries :
        (j : ℕ)
        → entry s'.pt j ≡ (if j == i then record (entry s.pt i) { valid = false } else entry s.pt j)

  pub unmap_no_free_lem :
      (first vpn : ℕ) (s : Space)
      → Mapped base s
      → first ≤ vpn
      → vpn - first < length s.pt
      → (s' : Space) × (unmap_no_free base first vpn s ≡ (some (entry s.pt (vpn - first)).pfn, s'))
        × Unmaps s s' (vpn - first)
  unfolding unmap_no_free
  unmap_no_free_lem first vpn s m low inside =
      let i : ℕ = vpn - first in
      let e : Pte = record (entry s.pt i) { valid = false } in
      let here : (not (ltb vpn first) && ltb (vpn - first) (length s.pt)) ≡ true = ground arith in
      let now = λ (j : ℕ). get_or-set s.pt i j e zero_pte inside in
      (
        record s { pt = set s.pt i e },
        rw here,
        record {
          mapped = record {
            tracked = m.tracked;
            above = λ j h. ground (arith, now j, m.above j);
            inside = λ j h. ground (arith, now j, m.inside j);
            used = λ j h. ground (arith, now j, m.used j);
            apart = λ j k hj hk same. ground (arith, now j, now k, m.apart j k);
          };
          frames = refl;
          size = length-set s.pt i e;
          entries = now;
        },
      )
