-- ===== src/Loader/Moves.antt =====
-- The frames of a loaded program, whatever becomes of LoadProgram: new pages come from free frames or frames of the process.
use cs58final_project.Prelude.{
  ℕ, Bool, ltb, Option, none, some, List, inl, inr, replicate, ◌+◌, ◌-◌, Bool-cases,
}
use cs58final_project.Prelude.Run.{Ensures, Ensures-bind, Ensures-any}
use cs58final_project.Pages.{read_write, read_exec}
use cs58final_project.Pages.Laws.{Mapped}
use cs58final_project.Pages.Moves.{Moves, Moves-trans}
use cs58final_project.UserMemory.{UserMem, Layout, space_of, with_space, limit_vpn}
use cs58final_project.UserMemory.Moves.{alloc_region-Moves, deallocate_region1-Moves}
use cs58final_project.UserMemory.Prots.{prot_region-Moves}
use cs58final_project.Loader.{
  LoadInfo, File, Abi, Plan, LoadResult, load_error, kill, loaded, build, finish, plan, too_large,
  put_bytes, build_stack, read_segments, load_checked, load_file, load_program,
}

module _ (l : Layout) where
  -- the new pages of a memory, for the process whose memory was `m`
  abbrev pub Rebuilt : UserMem → UserMem → Type 0
  Rebuilt m m' = Moves l.base (space_of m) (space_of m')

  abbrev pub LoadMoves : UserMem → LoadResult → Type 0
  LoadMoves m (load_error sp) = Unit {0}
  LoadMoves m (kill sp m' contents) = Rebuilt m m'
  LoadMoves m (loaded pc sp m' contents) = Rebuilt m m'

  build-Moves :
      (p : Plan) (m : UserMem)
      → Mapped l.base (space_of m)
      → Ensures (λ (r : Bool × UserMem). Rebuilt m r.1) (build l p m)
  unfolding build
  build-Moves p m v =
      let (s0, run0, a0) = deallocate_region1-Moves l m v in
      let m0 = with_space m s0 in
      let (b1, s1, run1, a1) =
        alloc_region-Moves l m0 a0.mapped p.text (p.text + p.text_npg) read_write in
      let a1' = Moves-trans l.base (space_of m) s0 s1 a0 a1 in
      let m1 = with_space m s1 in
      let (b2, s2, run2, a2) =
        alloc_region-Moves l m1 a1.mapped p.start (p.start + p.data_npg) read_write in
      let a2' = Moves-trans l.base (space_of m) s1 s2 a1' a2 in
      let m2 = with_space m s2 in
      let (b3, s3, run3, a3) =
        alloc_region-Moves l m2 a2.mapped (limit_vpn l m2 - p.stack_npg) (limit_vpn l m2)
          read_write in
      let a3' = Moves-trans l.base (space_of m) s2 s3 a2' a3 in
      elim (Bool-cases b1) [
        | inr full ↦ rw (run0, run1, full) a1'
        | inl text ↦ elim (Bool-cases b2) [
          | inr full ↦ rw (run0, run1, text, run2, full) a2'
          | inl bytes ↦ rw (run0, run1, text, run2, bytes, run3) a3'
        ]
      ]

  module _ (a : Abi) where
    load_checked-Moves :
        (file : File) (li : LoadInfo) (args : List (List ℕ)) (p : Plan) (m : UserMem)
        (contents : ℕ → List ℕ)
        → Mapped l.base (space_of m)
        → Ensures (LoadMoves m) (load_checked l a file li args p m contents)
    unfolding load_checked finish
    load_checked-Moves file li args p m contents v =
        Ensures-bind (λ (r : Bool × UserMem). Rebuilt m r.1) (LoadMoves m) (build l p m) _
          (build-Moves p m v)
          (λ r w. elim (Bool-cases r.0) [
            | inr full ↦ rw full w
            | inl built ↦ rw built (
                Ensures-any (LoadMoves m) (read_segments l a file li r.1.ctx.region1_pt contents) _
                  (λ s. elim (Bool-cases s.0) [
                    | inr broken ↦ rw broken w
                    | inl complete ↦
                        let m' = finish l p r.1 in
                        rw complete (
                          Ensures-any (LoadMoves m)
                            (put_bytes l a m'.ctx.region1_pt li.id_end
                              (replicate (li.ud_end - li.id_end) 0) s.1)
                            _
                            (λ c1.
                              Ensures-any (LoadMoves m)
                                (build_stack l a m'.ctx.region1_pt p args c1) _
                                (λ c2.
                                  Moves-trans l.base (space_of m) (space_of r.1) (space_of m') w (
                                    prot_region-Moves l p.text (p.text + p.text_npg) read_exec r.1
                                      w.mapped))))
                  ]))
          ])

    load_file-Moves :
        (allocated : Bool) (file : File) (args : List (List ℕ)) (m : UserMem)
        (contents : ℕ → List ℕ) (x : Option LoadInfo)
        → Mapped l.base (space_of m)
        → Ensures (LoadMoves m) (load_file l a allocated file args m contents x)
    unfolding load_file
    load_file-Moves allocated file args m contents none v = tt
    load_file-Moves allocated file args m contents (some li) v =
        elim (Bool-cases (ltb li.entry l.vmem_base)) [
          | inl low ↦ rw low tt
          | inr high ↦ elim (Bool-cases (too_large l a (plan l a args li m))) [
            | inl big ↦ rw (high, big) tt
            | inr fits ↦ elim (Bool-cases allocated) [
              | inr no_memory ↦ rw (high, fits, no_memory) tt
              | inl memory ↦
                  rw (high, fits, memory)
                    (load_checked-Moves file li args (plan l a args li m) m contents v)
            ]
          ]
        ]

    pub load_program-Moves :
        (allocated : Bool) (file : File) (args : List (List ℕ)) (m : UserMem)
        (contents : ℕ → List ℕ)
        → Mapped l.base (space_of m)
        → Ensures (LoadMoves m) (load_program l a allocated file args m contents)
    unfolding load_program load_file load_checked read_segments
    load_program-Moves allocated file args m contents v = elim (Bool-cases file.opened) [
      | inr missing ↦ rw missing tt
      | inl found ↦ rw found (load_file-Moves allocated file args m contents file.info v)
    ]
