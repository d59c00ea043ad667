-- ===== src/Examples/Counters.antt =====
-- The counters at concrete inputs.
use netrex_rak_net.Prelude.{◌≡◌, true, arith}
use netrex_rak_net.Prelude.Table.{contains_key}
use netrex_rak_net.Meta
use netrex_rak_net.Meta.FragmentIds.{allocate, next_fragment_id_collides}

next_fragment_id_collides_example :
    let m = Meta.free_fragment_id (allocate 3 Meta.new) 0 in
    ((Meta.next_fragment_id m).1 ≡ 2)
    × (contains_key (Meta.next_fragment_id m).1 m.fragment_ids ≡ true)
next_fragment_id_collides_example = next_fragment_id_collides 3 0 (omega arith) (omega arith)
