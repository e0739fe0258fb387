-- ===== src/Pipe/Table.antt =====
-- Look-ups in the table of pipes.
use cs58final_project.Prelude.{ℕ, ◌≡◌, true, arith, some, set, get_elem?, get_elem?-set_self}
use cs58final_project.Prelude.Arrays.{inside_of_some}
use cs58final_project.Pipe.{Pipe, Pipes, get_pipe}

pub get_pipe-some :
    (t : Pipes) (i : ℕ) {p : Pipe}
    → get_pipe t i ≡ some p
    → (get_elem? t.pipes i ≡ some p) × (p.in_use ≡ true)
unfolding get_pipe
get_pipe-some t i {p} e = ground arith

pub get_pipe-set :
    (t : Pipes) (i : ℕ) {p : Pipe} (p' : Pipe)
    → get_pipe t i ≡ some p
    → p'.in_use ≡ true
    → get_pipe (record t { pipes = set t.pipes i p' }) i ≡ some p'
unfolding get_pipe
get_pipe-set t i p' e used =
    let inside = inside_of_some t.pipes i (get_pipe-some t i e).0 in
    ground (arith, get_elem?-set_self t.pipes i p' inside)
