-- ===== src/Tasks.antt =====
-- crates/cowchat-server/src/tasks.rs. The store is a parameter: its state, what saving a task makes
-- of it, where nothing is an error that left it alone, and what it loads.
pub mod Rows
pub mod Restart
pub mod Tests
use cowchat4win.Base.{
  ℕ, String, ◌≡◌, Bool, true, not, ◌&&◌, Option, none, some, List, [], ◌∷◌, ◌==◌, if◌then◌else◌,
  unwrap_or,
}
use cowchat4win.Base.Dict.{Dict, lookup, insert, retain_values}
use cowchat4win.Models.{TaskInfo}
use cowchat4win.Base.{Result, ok, err}

pub record TaskStore (State : Type 0) : Type 0 where
  pub save_task : TaskInfo → State → Option State
  pub load_tasks : State → Option (List TaskInfo)

pub record TaskManager (State : Type 0) : Type 0 where
  pub tasks : Dict TaskInfo
  pub store : State

pub data StoreError : Type 0 where
  not_saved : StoreError

unfoldable pub insert_tasks : List TaskInfo → Dict TaskInfo → Dict TaskInfo
insert_tasks [] m = m
insert_tasks (t ∷ ts) m = insert_tasks ts (insert t.task_id t m)

abbrev or_keep : Option String → String → String
or_keep none old = old
or_keep (some new) old = new

abbrev or_keep_option : Option String → Option String → Option String
or_keep_option none old = old
or_keep_option (some new) old = some new

-- The fields that an update gives, and the time of it.
unfoldable pub updated_task :
    ℕ → Option String → Option String → Option String → TaskInfo → TaskInfo
updated_task now status assignee note t = record t {
  status = or_keep status t.status;
  assignee = or_keep_option assignee t.assignee;
  note = or_keep_option note t.note;
  updated_at = some now;
}

unfoldable pub matches_task : String → Option String → TaskInfo → Bool
matches_task room_id status_filter t =
    t.room_id == room_id && elim status_filter [ none ↦ true | some s ↦ t.status == s ]

unfoldable pub tasks_where : (TaskInfo → Bool) → Dict TaskInfo → List TaskInfo
tasks_where p [] = []
tasks_where p ((k, t) ∷ m) = let rest = tasks_where p m in if p t then t ∷ rest else rest

module _ {State : Type 0} (db : TaskStore State) where
  unfoldable pub new : State → TaskManager State
  unfolding insert_tasks
  new s = record { tasks = insert_tasks (unwrap_or (db.load_tasks s) []) []; store = s }

  unfoldable pub create_task :
      ℕ
      → String
      → String
      → String
      → Option String
      → Option String
      → String
      → TaskManager State
      → Result TaskInfo StoreError × TaskManager State
  create_task now task_id room_id title description assignee created_by m =
      let task : TaskInfo = record {
        task_id = task_id;
        room_id = room_id;
        title = title;
        description = description;
        status = "pending";
        assignee = assignee;
        created_by = created_by;
        created_at = now;
        updated_at = none;
        note = none;
      } in
      elim (db.save_task task m.store) [
        | none ↦ (err not_saved, m)
        | some s ↦ (ok task, record { tasks = insert task_id task m.tasks; store = s })
      ]

  unfoldable pub update_task :
      ℕ
      → String
      → Option String
      → Option String
      → Option String
      → TaskManager State
      → Result (Option TaskInfo) StoreError × TaskManager State
  unfolding updated_task
  update_task now task_id status assignee note m = elim (lookup task_id m.tasks) [
    | none ↦ (ok none, m)
    | some entry ↦
        let task = updated_task now status assignee note entry in
        elim (db.save_task task m.store) [
          | none ↦ (err not_saved, m)
          | some s ↦ (ok (some task), record { tasks = insert task_id task m.tasks; store = s })
        ]
  ]

module _ {State : Type 0} where
  unfoldable pub list_tasks : String → Option String → TaskManager State → List TaskInfo
  unfolding tasks_where matches_task
  list_tasks room_id status_filter m = tasks_where (matches_task room_id status_filter) m.tasks

  unfoldable pub get_task : String → TaskManager State → Option TaskInfo
  get_task task_id m = lookup task_id m.tasks

  unfoldable pub forget_room : String → TaskManager State → TaskManager State
  forget_room room_id m = record m {
    tasks = retain_values (λ (t : TaskInfo). not (t.room_id == room_id)) m.tasks;
  }
