-- ===== src/Tasks/Tests.antt =====
-- The restart of a task manager over tables with one room.
use cowchat4win.Base.{◌≡◌, refl, none, some, List, [], ◌∷◌, false}
use cowchat4win.Store.{Store, RoomRow, created_tables}
use cowchat4win.Base.Dict.{lookup, insert}
use cowchat4win.Store.Votes.{load_tasks, save_task}
use cowchat4win.Tasks.{new, get_task, create_task, update_task}
use cowchat4win.Tasks.Restart.{
  TaskCall, creates, updates, calls, task_store, as_stored, restart_restores,
}

abbrev lobby : RoomRow
lobby = record {
  room_id = "lobby";
  name = "lobby";
  description = none;
  parent_id = none;
  created_by = none;
  created_at = 0;
  visibility = "public";
  owner_key = some "";
  encrypted = false;
}

abbrev tables : Store
tables = record created_tables { rooms = lobby ∷ [] }

abbrev some_calls : List TaskCall
some_calls =
    creates 1234567 "t" "lobby" "Persist me" none (some "agent") "creator"
    ∷ updates 2345678 "t" (some "in_progress") none none
    ∷ creates 3 "u" "missing-room" "Must fail" none none "creator"
    ∷ []

restart_restores_example :
    get_task "t" (new task_store (calls (new task_store tables) some_calls).store)
    ≡ as_stored (get_task "t" (calls (new task_store tables) some_calls))
unfolding lookup insert new update_task create_task load_tasks save_task
restart_restores_example = restart_restores tables some_calls "t" tt (refl, (tt, (refl, tt)))
