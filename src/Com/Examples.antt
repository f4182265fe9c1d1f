-- ===== src/Com/Examples.antt =====
-- Runs of a client, and the witnesses.
use win32_experiments.Common.{◌<◌, ◌≡◌, ◌≢◌, refl, false, none, some, arith}
use win32_experiments.Com.{
  iid_add, iid_other, s_ok, e_no_interface, deref, new_obj, World, creates, releases, created,
  create_instance, empty_world, dll_can_unload_now, call, query_interface, do_the_addition,
  set_first_number, set_second_number,
}
use win32_experiments.Com.References.{Counted, Runs, at_start, calls, Returns, Runs-Returns}
use win32_experiments.Com.Lifetime.{create_instance_leaks, unload-Runs}

addition_run : do_the_addition (set_second_number 4 (set_first_number 3 new_obj)) ≡ 7
unfolding do_the_addition set_second_number set_first_number
addition_run = refl

abbrev one_object : World
one_object = created empty_world (create_instance false iid_add empty_world.server)

one_object-Runs : Runs empty_world 1 one_object
unfolding call
one_object-Runs = calls (creates false iid_add) at_start tt refl

one_object-held : 0 < one_object.held 0
unfolding created create_instance query_interface
one_object-held = omega arith

Runs-Returns_example : Counted 1 one_object × Returns 1 one_object (releases 0)
Runs-Returns_example = Runs-Returns (releases 0) one_object-Runs (omega arith) one_object-held

abbrev lost_object : World
lost_object = created empty_world (create_instance false iid_other empty_world.server)

create_instance_leaks_example :
    ((create_instance false iid_other empty_world.server).0 ≡ (e_no_interface, none))
    × (deref lost_object.server.heap 0 ≡ some new_obj)
create_instance_leaks_example =
    create_instance_leaks iid_other empty_world lost_object (cc) (cc) refl at_start

unload-Runs_example :
    (deref one_object.server.heap 0 ≢ none) × (dll_can_unload_now one_object.server ≡ s_ok)
unload-Runs_example = unload-Runs 0 one_object-Runs (omega arith) one_object-held
