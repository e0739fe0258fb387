-- ===== src/KernelMemory/Boot.antt =====
-- init_region0_pt of yalnix_framework/src/kernel_memory.c: the pages that the kernel starts with.
use cs58final_project.Prelude.{
  ℕ, zero, suc, ◌+◌, ◌-◌, ◌≤◌, ◌<◌, ◌≡◌, refl, ap, ◌∙◌, true, false, not, ◌&&◌, arith, some, List,
  [], inl, inr, ◌==◌, if◌then◌else◌, length, length-replicate, replicate, take, drop, Bool-cases,
}
use cs58final_project.Prelude.Run.{ok}
use cs58final_project.Frames.{Frames, acquire_frame}
use cs58final_project.Frames.Inv.{is_free}
use cs58final_project.Frames.Tracked.{Tracked, Becomes}
use cs58final_project.Frames.Find.{acquire_frame_lem}
use cs58final_project.Pages.{Prot, Pte, zero_pte, entry, create_pte, Space, read_write, read_exec}
use cs58final_project.Pages.Laws.{Mapped, alloc-Changes}
use cs58final_project.Pages.Range.{within}
use cs58final_project.KernelMemory.{KernelMem, KernelLayout, identity_map, init_region0_pt}

-- a page in the frame of its own number
abbrev pub ident : Prot → ℕ → Pte
ident prot j = record { valid = true; pfn = j; prot = prot }

module _ (l : KernelLayout) where
  -- `s'` is `s` with the `n` pages from `vpn` on in the frames of their own numbers.
  pub record Identity (prot : Prot) (n vpn : ℕ) (s s' : Space) : Type 0 where
    pub mapped : Mapped l.base s'
    pub size : length s'.pt ≡ length s.pt
    pub num_frames : s'.frames.num_frames ≡ s.frames.num_frames
    pub entries : (j : ℕ) → entry s'.pt j ≡ (if within vpn n j then ident prot j else entry s.pt j)
    pub free :
        (m : ℕ) → is_free s'.frames m ≡ (is_free s.frames m && not (within vpn n (m + l.base)))

  -- the frames of the pages are there, and free
  pub record CanMap (n vpn : ℕ) (s : Space) : Type 0 where
    pub low : l.base ≤ vpn
    pub fits : vpn + n ≤ length s.pt
    pub inside : vpn + n ≤ s.frames.num_frames + l.base
    pub all_free : (j : ℕ) → within vpn n j ≡ true → is_free s.frames (j - l.base) ≡ true

  one_page :
      (prot : Prot) (n vpn : ℕ) (s : Space)
      → Mapped l.base s
      → CanMap (suc n) vpn s
      → (fr : Frames) × (acquire_frame l.base s.frames vpn ≡ ok (true, fr))
        × Identity prot 1 vpn s (record { frames = fr; pt = create_pte s.pt vpn vpn prot })
  one_page prot n vpn s v c =
      let free : is_free s.frames (vpn - l.base) ≡ true = c.all_free vpn (ground arith) in
      let t = v.tracked in
      let (fr, run, valid, size, after) =
        acquire_frame_lem l.base s.frames t.valid vpn c.low
          (omega (arith, t.spare, c.inside, c.low)) in
      let up : vpn - l.base + l.base ≡ vpn = omega (arith, c.low) in
      let at : vpn - 0 ≡ vpn = omega arith in
      let b : Becomes s.frames fr (λ k. if k == vpn - l.base then false else is_free s.frames k) =
        record {
          tracked = record { valid = valid; spare = omega (arith, t.spare, size) };
          size = size;
          free = after;
        } in
      let c1 =
        alloc-Changes l.base 0 vpn s v (omega arith) prot (vpn - l.base) fr (omega (arith, c.fits))
          (omega (arith, c.inside, c.low)) free b in
      let c2 = rw (at, up) at c1 in
      (
        fr,
        rw free at run,
        record {
          mapped = c2.mapped;
          size = c2.size;
          num_frames = c2.num_frames;
          entries = λ j. elim (Bool-cases (j == vpn)) [
            | inl here ↦
                let inside : within vpn 1 j ≡ true = ground arith in
                let e : vpn ≡ j = ground arith in
                rw inside (rw here at (c2.entries j) ∙ ap (ident prot) e)
            | inr other ↦
                let outside : within vpn 1 j ≡ false = ground arith in
                rw outside (rw other at (c2.entries j))
          ];
          free = λ m. ground (arith, c2.free m, c.low);
        },
      )

  Identity-trans :
      (prot : Prot) (n vpn : ℕ) (s s1 s2 : Space)
      → Identity prot 1 vpn s s1
      → Identity prot n (vpn + 1) s1 s2
      → Identity prot (suc n) vpn s s2
  Identity-trans prot n vpn s s1 s2 a b = record {
    mapped = b.mapped;
    size = b.size ∙ a.size;
    num_frames = b.num_frames ∙ a.num_frames;
    entries = λ j. elim (Bool-cases (within (vpn + 1) n j)) [
      | inl later ↦
          let inside : within vpn (suc n) j ≡ true = ground arith in
          rw inside (rw later at (b.entries j))
      | inr no_later ↦ elim (Bool-cases (within vpn 1 j)) [
        | inl here ↦
            let inside : within vpn (suc n) j ≡ true = ground arith in
            rw inside (rw no_later at (b.entries j) ∙ rw here at (a.entries j))
        | inr other ↦
            let outside : within vpn (suc n) j ≡ false = ground arith in
            rw outside (rw no_later at (b.entries j) ∙ rw other at (a.entries j))
      ]
    ];
    free = λ m. ground (arith, b.free m, a.free m);
  }

  identity_map_lem :
      (prot : Prot) (n vpn : ℕ) (s : Space)
      → Mapped l.base s
      → CanMap n vpn s
      → (s' : Space) × (identity_map l prot n vpn s ≡ ok (true, s')) × Identity prot n vpn s s'
  unfolding identity_map
  identity_map_lem prot zero vpn s v c = (
    s,
    refl,
    record {
      mapped = v;
      size = refl;
      num_frames = refl;
      entries = λ j. let out : within vpn 0 j ≡ false = ground arith in rw out refl;
      free = λ m. ground arith;
    },
  )
  identity_map_lem prot (suc n) vpn s v c =
      let (fr, run, a) = one_page prot n vpn s v c in
      let s1 : Space = record { frames = fr; pt = create_pte s.pt vpn vpn prot } in
      let (s2, run2, b) = identity_map_lem prot n (vpn + 1) s1 a.mapped (record {
        low = omega (arith, c.low);
        fits = omega (arith, c.fits, a.size);
        inside = omega (arith, c.inside, a.num_frames);
        all_free = λ j h. ground (arith, c.all_free j, a.free (j - l.base), c.low);
      }) in
      (s2, rw (run, run2) refl, Identity-trans prot n vpn s s1 s2 a b)

  still_free :
      (prot : Prot) (n vpn : ℕ) (s s' : Space)
      → Identity prot n vpn s s'
      → (m : ℕ) → within vpn n (m + l.base) ≡ false
      → is_free s.frames m ≡ true
      → is_free s'.frames m ≡ true
  still_free prot n vpn s s' a m out free = ground (arith, a.free m)

  entry-drop : (i : ℕ) (pt : List Pte) (j : ℕ) → entry (drop i pt) j ≡ entry pt (i + j)
  entry-drop zero pt j = let e : 0 + j ≡ j = omega arith in rw e refl
  entry-drop (suc i) [] j = refl
  entry-drop (suc i) (List.◌∷◌ e pt) j =
      let same : suc i + j ≡ suc (i + j) = omega arith in rw same (entry-drop i pt j)

  entry-take : (n : ℕ) (pt : List Pte) (j : ℕ) → j < n → entry (take n pt) j ≡ entry pt j
  entry-take zero pt j lt = absurd (omega arith)
  entry-take (suc n) [] j lt = refl
  entry-take (suc n) (List.◌∷◌ e pt) zero lt = refl
  entry-take (suc n) (List.◌∷◌ e pt) (suc j) lt = entry-take n pt j (omega arith)

  length-window : (n i : ℕ) (pt : List Pte) → i + n ≤ length pt → length (take n (drop i pt)) ≡ n
  length-window zero zero pt h = refl
  length-window (suc n) zero [] h = absurd (omega arith)
  length-window (suc n) zero (List.◌∷◌ e pt) h = ap suc (length-window n zero pt (omega arith))
  length-window n (suc i) [] h = absurd (omega arith)
  length-window n (suc i) (List.◌∷◌ e pt) h = length-window n i pt (omega arith)

  -- the kernel's parts lie in order in region 0, in frames that are there
  pub record IsLaidOut (m : KernelMem) : Type 0 where
    pub low : l.base ≤ l.text_page
    pub text : l.text_page ≤ l.data_page
    pub heap : l.data_page ≤ m.current_brk_page
    pub gap : m.current_brk_page ≤ l.stack_page
    pub fits : l.stack_page + l.stack_pages ≤ l.region_pages
    pub frames : l.stack_page + l.stack_pages ≤ m.space.frames.num_frames + l.base

  abbrev pub text_pages : ℕ
  text_pages = l.data_page - l.text_page

  abbrev pub heap_pages : KernelMem → ℕ
  heap_pages m = m.current_brk_page - l.data_page

  -- Exactly the pages of text, of data and heap, and of the stack are mapped, each to the frame of its number, and
  -- exactly these frames have been taken. The idle process has the stack.
  pub record IsBooted (m : KernelMem) (s : Space) (st : List Pte) : Type 0 where
    pub mapped : Mapped l.base s
    pub size : length s.pt ≡ l.region_pages
    pub entries :
        (j : ℕ)
        → entry s.pt j ≡ (
            if within l.stack_page l.stack_pages j
            then ident read_write j
            else if within l.data_page (heap_pages m) j
            then ident read_write j
            else if within l.text_page text_pages j
            then ident read_exec j
            else zero_pte)
    pub free :
        (n : ℕ)
        → is_free s.frames n ≡ (
            is_free m.space.frames n
            && (not (within l.text_page text_pages (n + l.base))
                && (not (within l.data_page (heap_pages m) (n + l.base))
                    && not (within l.stack_page l.stack_pages (n + l.base)))))
    pub stack_size : length st ≡ l.stack_pages
    pub stack : (i : ℕ) → i < l.stack_pages → entry st i ≡ ident read_write (l.stack_page + i)

  entry-zeros : (n j : ℕ) → entry (replicate n zero_pte) j ≡ zero_pte
  entry-zeros zero j = refl
  entry-zeros (suc n) zero = refl
  entry-zeros (suc n) (suc j) = entry-zeros n j

  abbrev blank_space : KernelMem → Space
  blank_space m = record m.space { pt = replicate l.region_pages zero_pte }

  init_runs :
      (m : KernelMem) (s1 s2 s3 : Space)
      → identity_map l read_exec text_pages l.text_page (blank_space m) ≡ ok (true, s1)
      → identity_map l read_write (heap_pages m) l.data_page s1 ≡ ok (true, s2)
      → identity_map l read_write l.stack_pages l.stack_page s2 ≡ ok (true, s3)
      → init_region0_pt l m
        ≡ ok (some (take l.stack_pages (drop l.stack_page s3.pt)), record m { space = s3 })
  unfolding init_region0_pt
  init_runs m s1 s2 s3 run1 run2 run3 = rw (run1, run2, run3) refl

  booted :
      (m : KernelMem) (s1 s2 s3 : Space)
      → IsLaidOut m
      → Identity read_exec text_pages l.text_page (blank_space m) s1
      → Identity read_write (heap_pages m) l.data_page s1 s2
      → Identity read_write l.stack_pages l.stack_page s2 s3
      → IsBooted m s3 (take l.stack_pages (drop l.stack_page s3.pt))
  booted m s1 s2 s3 h a1 a2 a3 =
      let size : length s3.pt ≡ l.region_pages =
        a3.size ∙ a2.size ∙ a1.size ∙ length-replicate l.region_pages zero_pte in
      record {
        mapped = a3.mapped;
        size = size;
        entries =
            λ j. rw (a3.entries j, a2.entries j, a1.entries j, entry-zeros l.region_pages j) refl;
        free = λ n. ground (arith, a3.free n, a2.free n, a1.free n);
        stack_size = length-window l.stack_pages l.stack_page s3.pt (omega (arith, size, h.fits));
        stack = λ i lt.
            let here : within l.stack_page l.stack_pages (l.stack_page + i) ≡ true = ground arith in
            entry-take l.stack_pages (drop l.stack_page s3.pt) i lt
            ∙ entry-drop l.stack_page s3.pt i
            ∙ rw here at (a3.entries (l.stack_page + i));
      }

  -- With the frames all free, a bit to spare in their bitset, and the parts of the kernel in order in region 0 and in memory:
  -- `init_region0_pt` succeeds. Exactly the pages of text, of data and heap, and of the stack are mapped, each to the frame
  -- of its own number, the text for reading and executing and the rest for reading and writing; exactly these frames are
  -- taken, and the idle process gets the entries of the stack.
  pub init_region0_pt_lem :
      (m : KernelMem)
      → Tracked m.space.frames
      → ((n : ℕ) → is_free m.space.frames n ≡ true)
      → IsLaidOut m
      → (s : Space) × (st : List Pte) × (init_region0_pt l m ≡ ok (some st, record m { space = s }))
        × IsBooted m s st
  init_region0_pt_lem m t all h =
      let s0 = blank_space m in
      let size0 = length-replicate l.region_pages zero_pte in
      let blank = entry-zeros l.region_pages in
      let v0 : Mapped l.base s0 = record {
        tracked = t;
        above = λ i q. absurd (ground (arith, blank i, q));
        inside = λ i q. absurd (ground (arith, blank i, q));
        used = λ i q. absurd (ground (arith, blank i, q));
        apart = λ i j q r e. absurd (ground (arith, blank i, q));
      } in
      let (s1, run1, a1) = identity_map_lem read_exec text_pages l.text_page s0 v0 (record {
        low = h.low;
        fits = omega (arith, h.text, h.heap, h.gap, h.fits, size0);
        inside = omega (arith, h.text, h.heap, h.gap, h.frames);
        all_free = λ j q. all (j - l.base);
      }) in
      let (s2, run2, a2) =
        identity_map_lem read_write (heap_pages m) l.data_page s1 a1.mapped (record {
          low = omega (arith, h.low, h.text);
          fits = omega (arith, h.heap, h.gap, h.fits, size0, a1.size);
          inside = omega (arith, h.heap, h.gap, h.frames, a1.num_frames);
          all_free = λ j q.
              still_free read_exec text_pages l.text_page s0 s1 a1 (j - l.base)
                (ground (arith, q, h.low, h.text)) (all (j - l.base));
        }) in
      let (s3, run3, a3) =
        identity_map_lem read_write l.stack_pages l.stack_page s2 a2.mapped (record {
          low = omega (arith, h.low, h.text, h.heap, h.gap);
          fits = omega (arith, h.fits, size0, a1.size, a2.size);
          inside = omega (arith, h.frames, a1.num_frames, a2.num_frames);
          all_free = λ j q.
              still_free read_write (heap_pages m) l.data_page s1 s2 a2 (j - l.base)
                (ground (arith, q, h.low, h.text, h.heap, h.gap))
                (still_free read_exec text_pages l.text_page s0 s1 a1 (j - l.base)
                  (ground (arith, q, h.low, h.text, h.heap, h.gap)) (all (j - l.base)));
        }) in
      (
        s3,
        take l.stack_pages (drop l.stack_page s3.pt),
        init_runs m s1 s2 s3 run1 run2 run3,
        booted m s1 s2 s3 h a1 a2 a3,
      )
