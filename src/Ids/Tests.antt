-- ===== src/Ids/Tests.antt =====
-- identifiers.h at a concrete identifier.
use cs58final_project.Prelude.{◌≡◌, ◌<◌, ◌^◌, true, arith}
use cs58final_project.Ids.{lock, create_id, get_id, is_id, get_id-create_id}

get_id-create_id_example :
    (get_id (create_id lock 5) ≡ 5)
    × (create_id lock 5 < 2 ^ 32)
    × (is_id lock (create_id lock 5) ≡ true)
get_id-create_id_example = get_id-create_id lock 5 (omega arith)
