-- ===== src/Threads/Tests.antt =====
-- threads/list.cc: `Remove` on an empty list.
use cmps.Prelude.{ℕ, refl}
use cmps.Threads.LinkedList.{LinkedList, new_list}
use cmps.Threads.LinkedList.Counted.{RemoveCounts, remove_lem}

abbrev idle : LinkedList ℕ
idle = new_list

remove_lem_example : RemoveCounts idle
remove_lem_example = remove_lem idle refl
