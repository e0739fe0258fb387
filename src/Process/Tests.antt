-- ===== src/Process/Tests.antt =====
-- PCBs at a concrete store: process 1 has the children 2 and 3, and 3 has exited.
use cs58final_project.Prelude.{zero, suc, ◌≡◌, refl, arith, true, [], ◌∷◌, ◌++◌}
use cs58final_project.Prelude.Arrays.{count, elem}
use cs58final_project.Process.{Store, exited, zero_pcb}
use cs58final_project.Process.Retire.{exit_pcb, exit_pcb-freed_once}

abbrev family : Store
family (suc zero) = record zero_pcb { has_parent = true; children = 2 ∷ 3 ∷ []; arr_size = 10 }
family (suc (suc zero)) = record zero_pcb { has_parent = true; arr_size = 10 }
family (suc (suc (suc zero))) = record zero_pcb {
  has_parent = true;
  arr_size = 10;
  state = exited;
  exit_code = 7;
}
family _ = zero_pcb

exit_pcb-freed_once_example :
    (count 2 ((exit_pcb family 2).1 ++ (exit_pcb (exit_pcb family 2).0 1).1) ≡ 1)
    × (count 2 ((exit_pcb family 1).1 ++ (exit_pcb (exit_pcb family 1).0 2).1) ≡ 1)
exit_pcb-freed_once_example =
    exit_pcb-freed_once family 1 2 (omega arith) (unfold count in refl) refl refl
      (unfold elem in refl) (unfold elem in refl) (unfold elem in refl)
