-- ===== src/Tasks/Restart.antt =====
-- A task manager that is restarted from the tables of crates/cowchat-server/src/store.rs.
use cowchat4win.Base.{
  ℕ, String, ◌≡◌, refl, sym, ap, ◌∙◌, Bool, true, false, Option, none, some, List, [], ◌∷◌, ◌++◌,
  ◌==◌, arith, eq_iff, if◌then◌else◌, any, is_some, Bool-cases, Option-cases, inl, inr,
}
use cowchat4win.Base.Dict.{Dict, lookup, insert, lookup-insert}
use cowchat4win.Base.DictAll.{All, lookup-All, insert-All}
use cowchat4win.Base.Tables.{update_where}
use cowchat4win.Models.{TaskInfo}
use cowchat4win.Store.{Store}
use cowchat4win.Store.Rooms.{has_room_id}
use cowchat4win.Store.Votes.{has_task_id, task_row, updated_row, save_task, load_tasks}
use cowchat4win.Tasks.{
  TaskStore, TaskManager, new, create_task, update_task, updated_task, get_task, insert_tasks,
}
use cowchat4win.Tasks.Rows.{
  rewritten, loaded, is_some-loaded, insert_tasks-append, lookup-update_where,
}

abbrev pub task_store : TaskStore Store
task_store = record { save_task = save_task; load_tasks = λ s. some (load_tasks s) }

pub data TaskCall : Type 0 where
  creates : ℕ → String → String → String → Option String → Option String → String → TaskCall
  updates : ℕ → String → Option String → Option String → Option String → TaskCall

abbrev pub call : TaskManager Store → TaskCall → TaskManager Store
call m (creates now id room title about assignee by) =
    (create_task task_store now id room title about assignee by m).1
call m (updates now id status assignee note) =
    (update_task task_store now id status assignee note m).1

abbrev pub calls : TaskManager Store → List TaskCall → TaskManager Store
calls m [] = m
calls m (c ∷ cs) = calls (call m c) cs

-- The id of each created task, a new UUID, is not one of a task.
abbrev pub IsFresh : TaskManager Store → TaskCall → Type 0
IsFresh m (creates now id room title about assignee by) = lookup id m.tasks ≡ none
IsFresh m (updates now id status assignee text) = Unit

abbrev pub Fresh : TaskManager Store → List TaskCall → Type 0
Fresh m [] = Unit
Fresh m (c ∷ cs) = IsFresh m c × Fresh (call m c) cs

-- The times of the stored tasks are whole milliseconds, as the text of the columns has them.
abbrev pub Rounded : List TaskInfo → Type 0
Rounded [] = Unit
Rounded (t ∷ ts) = (task_row t ≡ t) × Rounded ts

abbrev pub as_stored : Option TaskInfo → Option TaskInfo
as_stored none = none
as_stored (some t) = some (task_row t)

-- Each task stands under its id, and the store has its row.
record IsDurable (m : TaskManager Store) : Type 0 where
  named : All (λ k (t : TaskInfo). t.task_id ≡ k) m.tasks
  restored : (id : String) → loaded m.store id ≡ as_stored (lookup id m.tasks)

stored_insert :
    (id : String) (t : TaskInfo) (m : TaskManager Store)
    → IsDurable m
    → (if t.task_id == id then some (task_row t) else loaded m.store id)
      ≡ as_stored (lookup id (insert t.task_id t m.tasks))
stored_insert id t m h =
    ap (λ o. if t.task_id == id then some (task_row t) else o) (h.restored id)
    ∙ push (t.task_id == id) (lookup id m.tasks)
    ∙ ap as_stored (sym (lookup-insert t.task_id id t m.tasks))
  where
    push :
        (b : Bool) (o : Option TaskInfo)
        → (if b then some (task_row t) else as_stored o) ≡ as_stored (if b then some t else o)
    push true o = refl
    push false o = refl

created-IsDurable :
    (m : TaskManager Store) (t : TaskInfo) (s : Store)
    → IsDurable m
    → lookup t.task_id m.tasks ≡ none
    → save_task t m.store ≡ some s
    → IsDurable (record { tasks = insert t.task_id t m.tasks; store = s })
unfolding save_task task_row
created-IsDurable m t s h new e =
    let gone : any (has_task_id t.task_id) m.store.tasks ≡ false = ground (
      arith,
      is_some-loaded t.task_id m.store.tasks [],
      h.restored t.task_id ∙ ap as_stored new,
      Bool-cases (any (has_task_id t.task_id) m.store.tasks),
    ) in
    elim (Bool-cases (any (has_room_id t.room_id) m.store.rooms)) [
      | inr r ↦ absurd (ground (arith, gone, r, e))
      | inl r ↦
          let s' : Store = record m.store { tasks = m.store.tasks ++ task_row t ∷ [] } in
          let same : some s' ≡ some s = sym (rw (gone, r, save_task) refl) ∙ e in
          let eq : s' ≡ s = cc in
          record {
            named = insert-All (λ k (t : TaskInfo). t.task_id ≡ k) t.task_id t m.tasks refl h.named;
            restored = λ id.
                ap (λ x. loaded x id) (sym eq)
                ∙ ap (lookup id) (insert_tasks-append m.store.tasks (task_row t) [])
                ∙ lookup-insert t.task_id id (task_row t) (insert_tasks m.store.tasks [])
                ∙ stored_insert id t m h;
          }
    ]

any-loaded : (id : String) (s : Store) → is_some (loaded s id) ≡ any (has_task_id id) s.tasks
unfolding lookup
any-loaded id s = ground (arith, is_some-loaded id s.tasks [])

nothing :
    (b : Bool) (id : String) (t : TaskInfo)
    → lookup id [] ≡ (if b then rewritten (updated_row t) (lookup id []) else lookup id [])
unfolding lookup
nothing true id t = refl
nothing false id t = refl

stored_update :
    (m : TaskManager Store) (now : ℕ) (k id : String) (status assignee note : Option String)
    (old : TaskInfo)
    → IsDurable m
    → lookup k m.tasks ≡ some old
    → (if k == id
        then rewritten (updated_row (updated_task now status assignee note old)) (loaded m.store id)
        else loaded m.store id)
      ≡ as_stored (lookup id (insert k (updated_task now status assignee note old) m.tasks))
unfolding task_row updated_task
stored_update m now k id status assignee note old h was =
    let t : TaskInfo = updated_task now status assignee note old in
    let put = lookup-insert k id t m.tasks in
    elim (Bool-cases (k == id)) [
      | inr e ↦ rw (put, e) (h.restored id)
      | inl e ↦
          let same : k ≡ id = (eq_iff k id).0 e in
          let row : loaded m.store id ≡ some (task_row old) =
            h.restored id ∙ ap (λ i. as_stored (lookup i m.tasks)) (sym same) ∙ ap as_stored was in
          rw (put, e, row) refl
    ]

updated-IsDurable :
    (m : TaskManager Store) (now : ℕ) (k : String) (status assignee note : Option String)
    (old : TaskInfo) (s : Store)
    → IsDurable m
    → lookup k m.tasks ≡ some old
    → save_task (updated_task now status assignee note old) m.store ≡ some s
    → IsDurable
        (record { tasks = insert k (updated_task now status assignee note old) m.tasks; store = s })
unfolding save_task task_row updated_task
updated-IsDurable m now k status assignee note old s h was e =
    let t : TaskInfo = updated_task now status assignee note old in
    let own : old.task_id ≡ k =
      lookup-All (λ k (t : TaskInfo). t.task_id ≡ k) k old m.tasks h.named was in
    let row : loaded m.store k ≡ some (task_row old) = h.restored k ∙ ap as_stored was in
    let there : any (has_task_id t.task_id) m.store.tasks ≡ true =
      ap (λ i. any (has_task_id i) m.store.tasks) own
      ∙ sym (any-loaded k m.store)
      ∙ ap is_some row in
    let s' : Store = record m.store {
      tasks = update_where (has_task_id t.task_id) (updated_row t) m.store.tasks;
    } in
    let same : some s' ≡ some s = sym (rw (there, save_task) refl) ∙ e in
    let eq : s' ≡ s = cc in
    record {
      named = insert-All (λ k (t : TaskInfo). t.task_id ≡ k) k t m.tasks own h.named;
      restored = λ id.
          ap (λ x. loaded x id) (sym eq)
          ∙ ap
              (λ i.
                lookup id
                  (insert_tasks (update_where (has_task_id i) (updated_row t) m.store.tasks) []))
              own
          ∙ lookup-update_where k id t m.store.tasks [] [] (nothing (k == id) id t)
          ∙ stored_update m now k id status assignee note old h was;
    }

call-IsDurable :
    (m : TaskManager Store) (c : TaskCall) → IsFresh m c → IsDurable m → IsDurable (call m c)
unfolding create_task update_task
call-IsDurable m (creates now id room title about assignee by) fresh h =
    let t : TaskInfo = record {
      task_id = id;
      room_id = room;
      title = title;
      description = about;
      status = "pending";
      assignee = assignee;
      created_by = by;
      created_at = now;
      updated_at = none;
      note = none;
    } in
    elim (Option-cases (save_task t m.store)) [
      | inl e ↦ rw (e, call, create_task) h
      | inr (s, e) ↦ rw (e, call, create_task) (created-IsDurable m t s h fresh e)
    ]
call-IsDurable m (updates now id status assignee text) fresh h =
    elim (Option-cases (lookup id m.tasks)) [
      | inl e ↦ rw (e, call, update_task) h
      | inr (old, e) ↦
          elim (Option-cases (save_task (updated_task now status assignee text old) m.store)) [
            | inl f ↦ rw (e, f, call, update_task) h
            | inr (s, f) ↦
                rw (e, f, call, update_task)
                  (updated-IsDurable m now id status assignee text old s h e f)
          ]
    ]

calls-IsDurable :
    (m : TaskManager Store) (cs : List TaskCall) → Fresh m cs → IsDurable m → IsDurable (calls m cs)
calls-IsDurable m [] fresh h = h
calls-IsDurable m (c ∷ cs) (one, rest) h =
    calls-IsDurable (call m c) cs rest (call-IsDurable m c one h)

insert_tasks-named :
    (ts : List TaskInfo) (d : Dict TaskInfo)
    → All (λ k (t : TaskInfo). t.task_id ≡ k) d
    → All (λ k (t : TaskInfo). t.task_id ≡ k) (insert_tasks ts d)
unfolding insert_tasks
insert_tasks-named [] d h = h
insert_tasks-named (t ∷ ts) d h =
    insert_tasks-named ts (insert t.task_id t d)
      (insert-All (λ k (t : TaskInfo). t.task_id ≡ k) t.task_id t d refl h)

insert_tasks-Rounded :
    (id : String) (ts : List TaskInfo) (d : Dict TaskInfo)
    → Rounded ts
    → as_stored (lookup id d) ≡ lookup id d
    → as_stored (lookup id (insert_tasks ts d)) ≡ lookup id (insert_tasks ts d)
unfolding insert_tasks
insert_tasks-Rounded id [] d r h = h
insert_tasks-Rounded id (t ∷ ts) d (r, rs) h =
    insert_tasks-Rounded id ts (insert t.task_id t d) rs
      (ground (arith, r, h, lookup-insert t.task_id id t d))

new-IsDurable : (s : Store) → Rounded s.tasks → IsDurable (new task_store s)
unfolding new lookup load_tasks
new-IsDurable s r = record {
  named = insert_tasks-named s.tasks [] tt;
  restored = λ id. sym (insert_tasks-Rounded id s.tasks [] r refl);
}

-- Where the stored times are whole milliseconds and each created task has a new id: after any
-- creations and updates, failed ones included, a manager restarted from the store finds under every
-- id the task in memory, with its times cut to milliseconds.
pub restart_restores :
    (s : Store) (cs : List TaskCall) (id : String)
    → Rounded s.tasks
    → Fresh (new task_store s) cs
    → get_task id (new task_store (calls (new task_store s) cs).store)
      ≡ as_stored (get_task id (calls (new task_store s) cs))
unfolding get_task new load_tasks
restart_restores s cs id r fresh =
    (calls-IsDurable (new task_store s) cs fresh (new-IsDurable s r)).restored id
