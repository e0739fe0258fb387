-- ===== src/Pages/Steps.antt =====
-- alloc_page, dealloc_page and their loops take only free frames and free only frames of the pages they work on, whatever
-- range they are called with.
use cs58final_project.Prelude.{
  ℕ, zero, suc, ◌+◌, ◌-◌, ◌≡◌, refl, ap, ◌∙◌, Bool, true, false, ◌&&◌, arith, inl, inr, ◌==◌,
  if◌then◌else◌, length, set, length-set, ltb, Bool-cases,
}
use cs58final_project.Prelude.Run.{ok}
use cs58final_project.Prelude.Arrays.{get_or-set}
use cs58final_project.Frames.{Frames}
use cs58final_project.Frames.Inv.{is_free}
use cs58final_project.Frames.Tracked.{Tracked, find_frame-cases}
use cs58final_project.Pages.{
  Prot, Pte, zero_pte, entry, Space, in_region, alloc_page, dealloc_page, undo_allocation,
  alloc_pages,
}
use cs58final_project.Pages.Laws.{Mapped, Changes, alloc-Changes, dealloc_page_lem}
use cs58final_project.Pages.Moves.{Moves, Moves-refl, Moves-trans}

module _ (base : ℕ) where
  Moves-less :
      (s : Space) (frames' : Frames)
      → Mapped base s
      → Tracked frames'
      → frames'.num_frames ≡ s.frames.num_frames
      → ((m : ℕ) → is_free s.frames m ≡ false → is_free frames' m ≡ false)
      → Moves base s (record s { frames = frames' })
  Moves-less s frames' m t num less = record {
    mapped = record {
      tracked = t;
      above = m.above;
      inside = λ i h. omega (arith, m.inside i h, num);
      used = λ i h. less ((entry s.pt i).pfn - base) (m.used i h);
      apart = m.apart;
    };
    num_frames = num;
    taken = λ j h. inr (j, h, λ i. (entry s.pt j).pfn);
    freed = λ n used free. absurd (ground (arith, less n used));
  }

  Moves-alloc :
      (s s' : Space) (i n : ℕ) (e : Pte)
      → e.pfn ≡ n + base
      → is_free s.frames n ≡ true
      → Changes base s s' i e (λ k. if k == n then false else is_free s.frames k)
      → Moves base s s'
  Moves-alloc s s' i n e pfn free c = record {
    mapped = c.mapped;
    num_frames = c.num_frames;
    taken = λ j h. elim (Bool-cases (j == i)) [
      | inl here ↦
          let same : (entry s'.pt j).pfn - base ≡ n = ground (arith, c.entries j, pfn) in
          inl (ap (is_free s.frames) same ∙ free)
      | inr other ↦ inr (j, ground (arith, c.entries j, h), ground (arith, c.entries j))
    ];
    freed = λ k used free'. absurd (ground (arith, c.free k));
  }

  Moves-dealloc :
      (s s' : Space) (i : ℕ)
      → Mapped base s
      → Changes base s s' i
          (record (entry s.pt i) { valid = false })
          (λ k.
            if (entry s.pt i).valid && (k == (entry s.pt i).pfn - base)
            then true
            else is_free s.frames k)
      → Moves base s s'
  Moves-dealloc s s' i m c = record {
    mapped = c.mapped;
    num_frames = c.num_frames;
    taken = λ j h. inr (j, ground (arith, c.entries j, h), ground (arith, c.entries j, h));
    freed = λ k used free.
        let valid : (entry s.pt i).valid ≡ true = ground (arith, c.free k) in
        (i, valid, ground (arith, c.free k, m.above i valid));
  }

  module _ (first : ℕ) where
    pub alloc_page-Moves :
        (vpn : ℕ) (prot : Prot) (s : Space)
        → Mapped base s
        → (b : Bool) × (s' : Space) × (alloc_page base first vpn prot s ≡ ok (b, s'))
          × Moves base s s'
          × (b ≡ true → (entry s'.pt (vpn - first)).valid ≡ true)
          × (length s'.pt ≡ length s.pt)
    unfolding alloc_page
    alloc_page-Moves vpn prot s m = elim (find_frame-cases base s.frames m.tracked) [
      | inl (frames', run, b, all) ↦ (
        false,
        record s { frames = frames' },
        rw (alloc_page, run),
        Moves-less s frames' m b.tracked b.size.0 (λ k used. b.free k ∙ used),
        λ h. absurd (ground arith),
        refl,
      )
      | inr (n, frames', run, lt, free, b) ↦ elim (Bool-cases (in_region base first vpn s)) [
        | inl here ↦
            let i : ℕ = vpn - first in
            let e : Pte = record { valid = true; pfn = n + base; prot = prot } in
            let s' : Space = record { frames = frames'; pt = set s.pt i e } in
            (
              true,
              s',
              rw (alloc_page, run, here),
              Moves-alloc s s' i n e (λ j. n + base) free
                  (alloc-Changes base first vpn s m (ground (arith, here)) prot n frames'
                    (ground (arith, here)) lt free b),
              λ h. ground (arith, get_or-set s.pt i i e zero_pte (ground (arith, here))),
              length-set s.pt i e,
            )
        | inr outside ↦ (
          false,
          record s { frames = frames' },
          rw (alloc_page, run, outside),
          Moves-less s frames' m b.tracked b.size.0 (λ k used. ground (arith, b.free k)),
          λ h. absurd (ground arith),
          refl,
        )
      ]
    ]

    pub dealloc_page-Moves :
        (vpn : ℕ) (s : Space)
        → Mapped base s
        → (b : Bool) × (s' : Space) × (dealloc_page base first vpn s ≡ ok (b, s')) × Moves base s s'
    unfolding dealloc_page
    dealloc_page-Moves vpn s m = elim (Bool-cases (ltb vpn first)) [
      | inl below ↦ (false, s, rw below, Moves-refl base s m)
      | inr above ↦
          let (s', run, c) = dealloc_page_lem base first vpn s m (ground arith) in
          ((entry s.pt (vpn - first)).valid, s', run, Moves-dealloc s s' (vpn - first) m c)
    ]

    pub undo_allocation-Moves :
        (n vpn : ℕ) (s : Space)
        → Mapped base s
        → (s' : Space) × (undo_allocation base first n vpn s ≡ ok s') × Moves base s s'
    unfolding undo_allocation
    undo_allocation-Moves zero vpn s m = (s, λ i. ok s, Moves-refl base s m)
    undo_allocation-Moves (suc n) vpn s m =
        let (b, s1, run, a) = dealloc_page-Moves vpn s m in
        let (s2, rest, a') = undo_allocation-Moves n (vpn + 1) s1 a.mapped in
        (s2, rw (undo_allocation, run) rest, Moves-trans base s s1 s2 a a')

    pub alloc_pages-Moves :
        (prot : Prot) (start n vpn : ℕ) (s : Space)
        → Mapped base s
        → (b : Bool) × (s' : Space) × (alloc_pages base first prot start n vpn s ≡ ok (b, s'))
          × Moves base s s'
    unfolding alloc_pages
    alloc_pages-Moves prot start zero vpn s m = (true, s, λ i. ok (true, s), Moves-refl base s m)
    alloc_pages-Moves prot start (suc n) vpn s m =
        let (b, s1, run, a, got_it, size) = alloc_page-Moves vpn prot s m in
        elim (Bool-cases b) [
          | inl got ↦
              let (b2, s2, rest, a') = alloc_pages-Moves prot start n (vpn + 1) s1 a.mapped in
              (b2, s2, rw (alloc_pages, run, got) rest, Moves-trans base s s1 s2 a a')
          | inr full ↦
              let (s2, undone, a') = undo_allocation-Moves (vpn - start) start s1 a.mapped in
              (false, s2, rw (alloc_pages, run, full, undone), Moves-trans base s s1 s2 a a')
        ]
