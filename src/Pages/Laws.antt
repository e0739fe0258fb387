-- ===== src/Pages/Laws.antt =====
-- A page table that maps each of its valid pages to a frame of its own, and what one page's
-- allocation and deallocation do to it.
use cs58final_project.Prelude.{
  ℕ, zero, suc, ◌+◌, ◌-◌, ◌≤◌, ◌<◌, ◌≡◌, refl, ap, ◌∙◌, Bool, true, false, not, ◌&&◌, arith, List,
  ◌⊎◌, inl, inr, ◌==◌, ltb, if◌then◌else◌, length, set, length-set, Bool-cases,
}
use cs58final_project.Prelude.Run.{ok}
use cs58final_project.Prelude.Arrays.{get_or-set}
use cs58final_project.Frames.{Frames}
use cs58final_project.Frames.Inv.{is_free}
use cs58final_project.Frames.Tracked.{Tracked, AllUsed, Becomes, find_frame-cases, free_frame-used}
use cs58final_project.Pages.{Prot, Pte, zero_pte, entry, Space, alloc_page, dealloc_page}

pub entry-outside : (pt : List Pte) (i : ℕ) → length pt ≤ i → entry pt i ≡ zero_pte
entry-outside List.[] i h = refl
entry-outside (List.◌∷◌ e pt) zero h = absurd (omega arith)
entry-outside (List.◌∷◌ e pt) (suc i) h = entry-outside pt i (omega arith)

module _ (base : ℕ) where
  -- A valid page has a tracked frame that is in use, and no other valid page has it.
  pub record Mapped (s : Space) : Type 0 where
    pub tracked : Tracked s.frames
    pub above : (i : ℕ) → (entry s.pt i).valid ≡ true → base ≤ (entry s.pt i).pfn
    pub inside :
        (i : ℕ) → (entry s.pt i).valid ≡ true → (entry s.pt i).pfn - base < s.frames.num_frames
    pub used :
        (i : ℕ) → (entry s.pt i).valid ≡ true → is_free s.frames ((entry s.pt i).pfn - base) ≡ false
    pub apart :
        (i j : ℕ)
        → (entry s.pt i).valid ≡ true
        → (entry s.pt j).valid ≡ true
        → (entry s.pt i).pfn ≡ (entry s.pt j).pfn
        → i ≡ j

  -- `s'` has the entries of `s` but for `e` at `i`, and the frames that `free'` says free.
  pub record Changes (s s' : Space) (i : ℕ) (e : Pte) (free' : ℕ → Bool) : Type 0 where
    pub mapped : Mapped s'
    pub size : length s'.pt ≡ length s.pt
    pub num_frames : s'.frames.num_frames ≡ s.frames.num_frames
    pub entries : (j : ℕ) → entry s'.pt j ≡ (if j == i then e else entry s.pt j)
    pub free : (m : ℕ) → is_free s'.frames m ≡ free' m

  module _ (first vpn : ℕ) (s : Space) (m : Mapped s) (low : first ≤ vpn) where
    abbrev index : ℕ
    index = vpn - first

    pub alloc-Changes :
        (prot : Prot) (n : ℕ) (frames' : Frames)
        → index < length s.pt
        → n < s.frames.num_frames
        → is_free s.frames n ≡ true
        → Becomes s.frames frames' (λ k. if k == n then false else is_free s.frames k)
        → let e : Pte = record { valid = true; pfn = n + base; prot = prot } in
          Changes s
            (record { frames = frames'; pt = set s.pt index e })
            index
            e
            (λ k. if k == n then false else is_free s.frames k)
    alloc-Changes prot n frames' inside lt free b =
        let e : Pte = record { valid = true; pfn = n + base; prot = prot } in
        let now = λ (j : ℕ). get_or-set s.pt index j e zero_pte inside in
        record {
          mapped = record {
            tracked = b.tracked;
            above = λ i h. ground (arith, now i, m.above i);
            inside = λ i h. ground (arith, now i, m.inside i, b.size);
            used = λ i h. ground (
              arith,
              now i,
              m.used i,
              m.above i,
              b.free ((entry (set s.pt index e) i).pfn - base),
              b.free ((entry s.pt i).pfn - base),
            );
            apart = λ i j hi hj same.
                ground (arith, now i, now j, m.apart i j, m.used i, m.used j, m.above i, m.above j);
          };
          size = length-set s.pt index e;
          num_frames = b.size.0;
          entries = now;
          free = b.free;
        }

    -- A page of the region that is not valid gets a frame that was free, or every frame is in use.
    pub alloc_page-cases :
        (prot : Prot)
        → index < length s.pt
        → (entry s.pt index).valid ≡ false
        → ((s' : Space) × (alloc_page base first vpn prot s ≡ ok (false, s'))
            × AllUsed s.frames
            × Changes s s' index (entry s.pt index) (is_free s.frames))
          ⊎ ((n : ℕ) × (s' : Space) × (alloc_page base first vpn prot s ≡ ok (true, s'))
              × (is_free s.frames n ≡ true)
              × Changes s s' index
                  (record { valid = true; pfn = n + base; prot = prot })
                  (λ k. if k == n then false else is_free s.frames k))
    unfolding alloc_page
    alloc_page-cases prot inside unused =
        let here : (not (ltb vpn first) && ltb (vpn - first) (length s.pt)) ≡ true = ground arith in
        elim (find_frame-cases base s.frames m.tracked) [
          | inl (frames', run, b, all) ↦ inl (
            record s { frames = frames' },
            rw (alloc_page, run),
            all,
            record {
              mapped = record {
                tracked = b.tracked;
                above = m.above;
                inside = λ i h. omega (arith, m.inside i h, b.size);
                used = λ i h. b.free ((entry s.pt i).pfn - base) ∙ m.used i h;
                apart = m.apart;
              };
              size = refl;
              num_frames = b.size.0;
              entries = λ j. ground arith;
              free = b.free;
            },
          )
          | inr (n, frames', run, lt, free, b) ↦ inr (
            n,
            record {
              frames = frames';
              pt = set s.pt index (record { valid = true; pfn = n + base; prot = prot });
            },
            rw (alloc_page, run, here),
            free,
            alloc-Changes prot n frames' inside lt free b,
          )
        ]

    -- A valid page gives its frame back; any other is left alone.
    pub dealloc_page_lem :
        (s' : Space) × (dealloc_page base first vpn s ≡ ok ((entry s.pt index).valid, s'))
        × Changes s s' index
            (record (entry s.pt index) { valid = false })
            (λ k.
              if (entry s.pt index).valid && (k == (entry s.pt index).pfn - base)
              then true
              else is_free s.frames k)
    unfolding dealloc_page
    dealloc_page_lem = elim (Bool-cases (entry s.pt index).valid) [
      | inl valid ↦
          let e : Pte = record (entry s.pt index) { valid = false } in
          let lt : index < length s.pt = elim (Bool-cases (ltb index (length s.pt))) [
            | inl below ↦ ground arith
            | inr beyond ↦ absurd (ground (arith, entry-outside s.pt index))
          ] in
          let here : (not (ltb vpn first) && ltb (vpn - first) (length s.pt)) ≡ true =
            ground arith in
          let (frames', run, b) =
            free_frame-used base s.frames m.tracked (entry s.pt index).pfn (m.above index valid)
              (m.inside index valid) (m.used index valid) in
          let now = λ (j : ℕ). get_or-set s.pt index j e zero_pte lt in
          (
            record { frames = frames'; pt = set s.pt index e },
            rw (dealloc_page, here, valid, run),
            record {
              mapped = record {
                tracked = b.tracked;
                above = λ i h. ground (arith, now i, m.above i);
                inside = λ i h. ground (arith, now i, m.inside i, b.size);
                used = λ i h. ground (
                  arith,
                  now i,
                  m.used i,
                  m.above i,
                  m.above index,
                  m.apart i index,
                  b.free ((entry s.pt i).pfn - base),
                );
                apart = λ i j hi hj same. ground (arith, now i, now j, m.apart i j);
              };
              size = length-set s.pt index e;
              num_frames = b.size.0;
              entries = now;
              free = λ k. ground (arith, b.free k, valid);
            },
          )
      | inr unused ↦ (
        s,
        ground arith,
        record {
          mapped = m;
          size = refl;
          num_frames = refl;
          entries = λ j. elim (Bool-cases (j == index)) [
            | inl same ↦
                let here : j ≡ index = ground arith in
                rw same (
                  ap (entry s.pt) here
                  ∙ ap (λ (b : Bool). record (entry s.pt index) { valid = b }) unused)
            | inr other ↦ rw other
          ];
          free = λ k. ground arith;
        },
      )
    ]
