-- ===== src/Store/Rooms/Unique.antt =====
-- The names and ids of rooms.
use cowchat4win.Base.{
  ℕ, String, ◌≡◌, refl, sym, ap, ◌∙◌, subst, Bool, false, not, Option, some, List, [], ◌∷◌, ◌++◌,
  ◌==◌, ◌⊎◌, arith, eq_iff, any, unwrap_or, Bool-cases, Option-cases, inl, inr,
}
use cowchat4win.Base.Tables.{update_where, delete_where, any-append, any-deleted}
use cowchat4win.Base.{ok, err, Result-cases}
use cowchat4win.Store.{Store, RoomRow, StoreError, db, room_name_taken, to_millis}
use cowchat4win.Store.Names.{normalize_room_name, IsCanonical, normalize_room_name-IsCanonical}
use cowchat4win.Store.Rooms.{
  has_room_id, has_name, parent_ok, query_room_by_id, insert_room, read_created,
  create_room_with_visibility, is_protected, may_mutate, rename_room_authorized,
}

-- Each name is canonical, and each name and each id stands once.
abbrev pub Unique : List RoomRow → Type 0
Unique [] = Unit
Unique (r ∷ rs) =
    IsCanonical r.name
    × (any (has_name r.name) rs ≡ false)
    × (any (has_room_id r.room_id) rs ≡ false)
    × Unique rs

append-Unique :
    (rs : List RoomRow) (row : RoomRow)
    → Unique rs
    → IsCanonical row.name
    → any (has_name row.name) rs ≡ false
    → any (has_room_id row.room_id) rs ≡ false
    → Unique (rs ++ row ∷ [])
append-Unique [] row u c n i = (c, refl, refl, tt)
append-Unique (r ∷ rs) row (c', n', i', u) c n i = (
  c',
  ground (
    arith,
    n',
    n,
    eq_iff row.name r.name,
    eq_iff r.name row.name,
    any-append (has_name r.name) rs (row ∷ []),
  ),
  ground (
    arith,
    i',
    i,
    eq_iff row.room_id r.room_id,
    eq_iff r.room_id row.room_id,
    any-append (has_room_id r.room_id) rs (row ∷ []),
  ),
  append-Unique rs row u c (ground (arith, n)) (ground (arith, i)),
)

pub delete-Unique :
    (p : RoomRow → Bool) (rs : List RoomRow) → Unique rs → Unique (delete_where p rs)
unfolding delete_where
delete-Unique p [] u = tt
delete-Unique p (r ∷ rs) (c, n, i, u) = elim (Bool-cases (p r)) [
  | inl e ↦ rw e (delete-Unique p rs u)
  | inr e ↦ rw e (
    c,
    any-deleted (has_name r.name) p rs n,
    any-deleted (has_room_id r.room_id) p rs i,
    delete-Unique p rs u,
  )
]

abbrev renamed : String → String → List RoomRow → List RoomRow
renamed id name rs = update_where (has_room_id id) (λ (r : RoomRow). record r { name = name }) rs

any-id-renamed :
    (id name x : String) (rs : List RoomRow)
    → any (has_room_id x) (renamed id name rs) ≡ any (has_room_id x) rs
unfolding update_where
any-id-renamed id name x [] = refl
any-id-renamed id name x (r ∷ rs) = ground (arith, any-id-renamed id name x rs)

any-name-renamed :
    (id name x : String) (rs : List RoomRow)
    → any (has_name x) rs ≡ false
    → (name == x) ≡ false
    → any (has_name x) (renamed id name rs) ≡ false
unfolding update_where
any-name-renamed id name x [] h d = refl
any-name-renamed id name x (r ∷ rs) h d = ground (arith, h, d, any-name-renamed id name x rs)

renamed-absent :
    (id name : String) (rs : List RoomRow)
    → any (has_room_id id) rs ≡ false
    → renamed id name rs ≡ rs
unfolding update_where
renamed-absent id name [] h = refl
renamed-absent id name (r ∷ rs) h = ground (arith, h, renamed-absent id name rs)

renamed-Unique :
    (id name : String) (rs : List RoomRow)
    → Unique rs
    → IsCanonical name
    → any (has_name name) rs ≡ false
    → Unique (renamed id name rs)
unfolding update_where
renamed-Unique id name [] u c n = tt
renamed-Unique id name (r ∷ rs) (c', n', i', u) c n = elim (Bool-cases (has_room_id id r)) [
  | inl e ↦
      let same : r.room_id ≡ id = (eq_iff r.room_id id).0 e in
      let absent : renamed id name rs ≡ rs =
        renamed-absent id name rs (ap (λ i. any (has_room_id i) rs) (sym same) ∙ i') in
      rw e (
        subst
          (λ l.
            IsCanonical name
            × (any (has_name name) l ≡ false)
            × (any (has_room_id r.room_id) l ≡ false)
            × Unique l)
          (sym absent) (c, ground (arith, n), i', u))
  | inr e ↦ rw e (
    c',
    any-name-renamed id name r.name rs n'
        (ground (arith, n, eq_iff r.name name, eq_iff name r.name)),
    any-id-renamed id name r.room_id rs ∙ i',
    renamed-Unique id name rs u c (ground (arith, n)),
  )
]

-- The two ways in which a row is put in.
insert_room-cases :
    (row : RoomRow) (s : Store)
    → ((x : StoreError) × (insert_room row s ≡ (err x, s)))
      ⊎ ((insert_room row s ≡ (ok tt, record s { rooms = s.rooms ++ row ∷ [] }))
          × (any (has_name row.name) s.rooms ≡ false)
          × (any (has_room_id row.room_id) s.rooms ≡ false))
unfolding insert_room
insert_room-cases row s = elim (Bool-cases (any (has_room_id row.room_id) s.rooms)) [
  | inl used ↦ inl (db, rw (used, insert_room) refl)
  | inr fresh ↦ elim (Bool-cases (any (has_name row.name) s.rooms)) [
    | inl dup ↦ inl (room_name_taken row.name, rw (fresh, dup, insert_room) refl)
    | inr new ↦ elim (Bool-cases (not (parent_ok row.room_id row.parent_id s.rooms))) [
      | inl bad ↦ inl (db, rw (fresh, new, bad, insert_room) refl)
      | inr fine ↦ inr (rw (fresh, new, fine, insert_room) refl, new, fresh)
    ]
  ]
]

read_created-Unique :
    (id : String) (s s' : Store) → Unique s'.rooms → Unique (read_created id s (ok tt, s')).1.rooms
unfolding read_created
read_created-Unique id s s' u = elim (Option-cases (query_room_by_id id s')) [
  | inl q ↦ rw (q, read_created) u
  | inr (room, q) ↦ rw (q, read_created) u
]

-- A creation keeps the names of the rooms canonical and distinct, and their ids distinct.
pub create_room_with_visibility-Unique :
    (now : ℕ) (id name : String) (about parent by : Option String) (visibility : String)
    (owner : Option String) (encrypted : Bool) (s : Store)
    → Unique s.rooms
    → Unique
        (create_room_with_visibility now id name about parent by visibility owner encrypted
          s).1.rooms
unfolding create_room_with_visibility read_created
create_room_with_visibility-Unique now id name about parent by visibility owner encrypted s u =
    elim (Result-cases (normalize_room_name name)) [
      | inr (why, e) ↦ rw (e, create_room_with_visibility) u
      | inl (n, e) ↦
          let row : RoomRow = record {
            room_id = id;
            name = n;
            description = about;
            parent_id = parent;
            created_by = by;
            created_at = to_millis now;
            visibility = visibility;
            owner_key = some (unwrap_or owner "");
            encrypted = encrypted;
          } in
          elim (insert_room-cases row s) [
            | inl (x, i) ↦
                rw (e, create_room_with_visibility)
                  (subst (λ r. Unique (read_created id s r).1.rooms) (sym i) u)
            | inr (i, new, fresh) ↦
                rw (e, create_room_with_visibility)
                  (subst (λ r. Unique (read_created id s r).1.rooms) (sym i)
                    (read_created-Unique id s (record s { rooms = s.rooms ++ row ∷ [] })
                      (append-Unique s.rooms row u (normalize_room_name-IsCanonical name n e).0 new
                        fresh)))
          ]
    ]

-- A renaming keeps the names of the rooms canonical and distinct, and their ids distinct.
pub rename_room_authorized-Unique :
    (id agent key : String) (no_auth : Bool) (name : String) (s : Store)
    → Unique s.rooms
    → Unique (rename_room_authorized id agent key no_auth name s).1.rooms
unfolding rename_room_authorized
rename_room_authorized-Unique id agent key no_auth name s u =
    elim (Result-cases (normalize_room_name name)) [
      | inr (why, e) ↦ rw (e, rename_room_authorized) u
      | inl (n, e) ↦ elim (Option-cases (query_room_by_id id s)) [
        | inl q ↦ rw (e, q, rename_room_authorized) u
        | inr (room, q) ↦ elim (Bool-cases (is_protected room)) [
          | inl p ↦ rw (e, q, p, rename_room_authorized) u
          | inr p ↦ elim (Bool-cases (not (may_mutate room agent key no_auth))) [
            | inl d ↦ rw (e, q, p, d, rename_room_authorized) u
            | inr d ↦ elim (Bool-cases (room.name == n)) [
              | inl same ↦ rw (e, q, p, d, same, rename_room_authorized) u
              | inr other ↦ elim (Bool-cases (any (has_name n) s.rooms)) [
                | inl dup ↦ rw (e, q, p, d, other, dup, rename_room_authorized) u
                | inr new ↦
                    rw (e, q, p, d, other, new, rename_room_authorized)
                      (renamed-Unique id n s.rooms u (normalize_room_name-IsCanonical name n e).0
                        new)
              ]
            ]
          ]
        ]
      ]
    ]
