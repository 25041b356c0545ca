-- ===== src/Tasks/Rows.antt =====
-- The tasks that a manager loads from the rows of the store.
use cowchat4win.Base.{
  String, ◌≡◌, refl, true, Option, none, some, List, [], ◌∷◌, ◌++◌, ◌==◌, arith, eq_iff,
  if◌then◌else◌, any, is_some, Option-cases,
}
use cowchat4win.Base.Dict.{Dict, lookup, insert, lookup-insert}
use cowchat4win.Base.Tables.{update_where}
use cowchat4win.Models.{TaskInfo}
use cowchat4win.Store.{Store}
use cowchat4win.Store.Votes.{has_task_id, updated_row}
use cowchat4win.Tasks.{insert_tasks}

abbrev pub rewritten : (TaskInfo → TaskInfo) → Option TaskInfo → Option TaskInfo
rewritten f none = none
rewritten f (some t) = some (f t)

abbrev pub loaded : Store → String → Option TaskInfo
loaded s id = lookup id (insert_tasks s.tasks [])

pub is_some-loaded :
    (id : String) (ts : List TaskInfo) (d : Dict TaskInfo)
    → is_some (lookup id (insert_tasks ts d))
      ≡ (if any (has_task_id id) ts then true else is_some (lookup id d))
unfolding insert_tasks
is_some-loaded id [] d = refl
is_some-loaded id (t ∷ ts) d = ground (
  arith,
  is_some-loaded id ts (insert t.task_id t d),
  lookup-insert t.task_id id t d,
  Option-cases (lookup id d),
)

pub insert_tasks-append :
    (ts : List TaskInfo) (t : TaskInfo) (d : Dict TaskInfo)
    → insert_tasks (ts ++ t ∷ []) d ≡ insert t.task_id t (insert_tasks ts d)
unfolding insert_tasks
insert_tasks-append [] t d = refl
insert_tasks-append (u ∷ ts) t d = insert_tasks-append ts t (insert u.task_id u d)

pub lookup-update_where :
    (k id : String) (t : TaskInfo) (ts : List TaskInfo) (d d' : Dict TaskInfo)
    → lookup id d' ≡ (if k == id then rewritten (updated_row t) (lookup id d) else lookup id d)
    → lookup id (insert_tasks (update_where (has_task_id k) (updated_row t) ts) d') ≡ (
        if k == id
        then rewritten (updated_row t) (lookup id (insert_tasks ts d))
        else lookup id (insert_tasks ts d))
unfolding insert_tasks update_where
lookup-update_where k id t [] d d' h = h
lookup-update_where k id t (u ∷ ts) d d' h =
    let u' : TaskInfo = if has_task_id k u then updated_row t u else u in
    let there = lookup-insert u.task_id id u d in
    let here = lookup-insert u'.task_id id u' d' in
    lookup-update_where k id t ts (insert u.task_id u d) (insert u'.task_id u' d')
      (ground (arith, h, there, here, eq_iff u.task_id k, eq_iff u.task_id id, eq_iff k id))
