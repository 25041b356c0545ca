-- ===== src/Store/Rooms/Run.antt =====
-- The rooms over any creations, renamings and destructions.
use cowchat4win.Base.{
  ℕ, String, ◌≡◌, refl, ◌∙◌, Bool, Option, none, List, [], ◌∷◌, arith, any, Bool-cases,
  Option-cases, inl, inr,
}
use cowchat4win.Base.Tables.{update_where}
use cowchat4win.Store.{Store, RoomRow}
use cowchat4win.Store.Rooms.{
  has_room_id, has_name, is_text, create_room_with_visibility, rename_room_authorized,
  query_room_by_id, is_protected, may_mutate,
}
use cowchat4win.Store.Rooms.Unique.{
  Unique, delete-Unique, create_room_with_visibility-Unique, rename_room_authorized-Unique,
}
use cowchat4win.Store.Destruction.{
  destroy_room_authorized, detach_children, detach_children_and_delete_room_artifacts,
  delete_room_artifacts_in_transaction, purge_room_grants_from_cache,
}

pub data RoomCall : Type 0 where
  creates :
      ℕ
      → String
      → String
      → Option String
      → Option String
      → Option String
      → String
      → Option String
      → Bool
      → RoomCall
  renames : String → String → String → Bool → String → RoomCall
  destroys : String → String → String → Bool → RoomCall

abbrev pub room_step : Store → RoomCall → Store
room_step s (creates now id name about parent by visibility owner encrypted) =
    (create_room_with_visibility now id name about parent by visibility owner encrypted s).1
room_step s (renames id agent key no_auth name) =
    (rename_room_authorized id agent key no_auth name s).1
room_step s (destroys id agent key no_auth) = (destroy_room_authorized id agent key no_auth s).1

abbrev pub room_run : Store → List RoomCall → Store
room_run s [] = s
room_run s (c ∷ cs) = room_run (room_step s c) cs

abbrev orphaned : String → List RoomRow → List RoomRow
orphaned k rs =
    update_where (λ (r : RoomRow). is_text r.parent_id k)
      (λ (r : RoomRow). record r { parent_id = none }) rs

any-orphaned :
    (k x : String) (rs : List RoomRow)
    → (any (has_name x) (orphaned k rs) ≡ any (has_name x) rs)
      × (any (has_room_id x) (orphaned k rs) ≡ any (has_room_id x) rs)
unfolding update_where
any-orphaned k x [] = (refl, refl)
any-orphaned k x (r ∷ rs) =
    (ground (arith, (any-orphaned k x rs).0), ground (arith, (any-orphaned k x rs).1))

orphaned-Unique : (k : String) (rs : List RoomRow) → Unique rs → Unique (orphaned k rs)
unfolding update_where
orphaned-Unique k [] u = tt
orphaned-Unique k (r ∷ rs) (c, n, i, u) = elim (Bool-cases (is_text r.parent_id k)) [
  | inl e ↦ rw e (
    c,
    (any-orphaned k r.name rs).0 ∙ n,
    (any-orphaned k r.room_id rs).1 ∙ i,
    orphaned-Unique k rs u,
  )
  | inr e ↦ rw e (
    c,
    (any-orphaned k r.name rs).0 ∙ n,
    (any-orphaned k r.room_id rs).1 ∙ i,
    orphaned-Unique k rs u,
  )
]

destroy_room_authorized-Unique :
    (k agent key : String) (no_auth : Bool) (s : Store)
    → Unique s.rooms
    → Unique (destroy_room_authorized k agent key no_auth s).1.rooms
unfolding destroy_room_authorized detach_children_and_delete_room_artifacts detach_children
    delete_room_artifacts_in_transaction purge_room_grants_from_cache
destroy_room_authorized-Unique k agent key no_auth s u =
    elim (Option-cases (query_room_by_id k s)) [
      | inl e ↦ rw (e, destroy_room_authorized) u
      | inr (room, e) ↦ elim (Bool-cases (is_protected room)) [
        | inl p ↦ rw (e, p, destroy_room_authorized) u
        | inr p ↦ elim (Bool-cases (may_mutate room agent key no_auth)) [
          | inr a ↦ rw (e, p, a, destroy_room_authorized) u
          | inl a ↦
              rw (e, p, a, destroy_room_authorized)
                (delete-Unique (has_room_id k) (orphaned k s.rooms) (orphaned-Unique k s.rooms u))
        ]
      ]
    ]

-- Over any creations, renamings and destructions of rooms, refused ones included, the names stay
-- canonical, and each name and each id stands once.
pub room_run-Unique :
    (s : Store) (cs : List RoomCall) → Unique s.rooms → Unique (room_run s cs).rooms
room_run-Unique s [] u = u
room_run-Unique s (creates now id name about parent by visibility owner encrypted ∷ cs) u =
    room_run-Unique (room_step s (creates now id name about parent by visibility owner encrypted))
      cs
      (create_room_with_visibility-Unique now id name about parent by visibility owner encrypted s
        u)
room_run-Unique s (renames id agent key no_auth name ∷ cs) u =
    room_run-Unique (room_step s (renames id agent key no_auth name)) cs
      (rename_room_authorized-Unique id agent key no_auth name s u)
room_run-Unique s (destroys id agent key no_auth ∷ cs) u =
    room_run-Unique (room_step s (destroys id agent key no_auth)) cs
      (destroy_room_authorized-Unique id agent key no_auth s u)
