-- ===== src/Store/Invites/Mirror.antt =====
-- The cache of the grants against the table.
use cowchat4win.Base.{
  String, ◌≡◌, refl, sym, ap, ◌∙◌, Bool, true, false, not, ◌&&◌, ◌||◌, none, List, [], ◌∷◌, ◌==◌,
  arith, eq_iff, if◌then◌else◌, any, contains, contains-without, without, is_empty, unwrap_or,
  Bool-cases, inl, inr,
}
use cowchat4win.Base.Dict.{Dict, IsDict, lookup, insert, lookup-insert, insert-IsDict}
use cowchat4win.Base.Tables.{delete_where, any-append}
use cowchat4win.Store.{Store}
use cowchat4win.Store.Rooms.{granted_row}
use cowchat4win.Store.Destruction.{
  purge_grants, purge_room_grants_from_cache, delete_room_artifacts,
  delete_room_artifacts_in_transaction,
}
use cowchat4win.Store.Invites.{add_room, add_room_grant, key_has_grant, hydrate_grants}

abbrev pub cached : String → String → Dict (List String) → Bool
cached key room m = contains room (unwrap_or (lookup key m) [])

-- The cache answers what the table says.
pub record Mirrors (s : Store) : Type 0 where
  pub dict : IsDict s.grants
  pub same :
      (key room : String) → cached key room s.grants ≡ any (granted_row key room) s.room_grants

contains-add_room :
    (r room : String) (rooms : List String)
    → contains room (add_room r rooms) ≡ (r == room || contains room rooms)
unfolding add_room
contains-add_room r room rooms = ground (arith, eq_iff r room)

cached-insert :
    (k key r room : String) (m : Dict (List String))
    → cached key room (insert k (add_room r (unwrap_or (lookup k m) [])) m)
      ≡ (k == key && r == room || cached key room m)
cached-insert k key r room m = elim (Bool-cases (k == key)) [
  | inl e ↦
      let same : k ≡ key = (eq_iff k key).0 e in
      rw (lookup-insert k key (add_room r (unwrap_or (lookup k m) [])) m, e)
        (contains-add_room r room (unwrap_or (lookup k m) [])
          ∙ ap (λ j. r == room || cached j room m) same)
  | inr e ↦ rw (lookup-insert k key (add_room r (unwrap_or (lookup k m) [])) m, e) refl
]

add_room_grant-Mirrors : (k r : String) (s : Store) → Mirrors s → Mirrors (add_room_grant k r s)
unfolding add_room_grant
add_room_grant-Mirrors k r s h = record {
  dict = insert-IsDict k (add_room r (unwrap_or (lookup k s.grants) [])) s.grants h.dict;
  same = λ key room.
      cached-insert k key r room s.grants
      ∙ (elim (Bool-cases (any (granted_row k r) s.room_grants)) [
        | inl e ↦ ground (arith, e, h.same key room, h.same k r, eq_iff k key, eq_iff r room)
        | inr e ↦ ground (
          arith,
          e,
          h.same key room,
          any-append (granted_row key room) s.room_grants ((k, r) ∷ []),
        )
      ]);
}

lookup-purge_grants-none :
    (r key : String) (m : Dict (List String))
    → lookup key m ≡ none
    → lookup key (purge_grants r m) ≡ none
unfolding purge_grants lookup
lookup-purge_grants-none r key [] h = refl
lookup-purge_grants-none r key ((k, rooms) ∷ m) h =
    ground (arith, h, lookup-purge_grants-none r key m)

purge_grants-IsDict : (r : String) (m : Dict (List String)) → IsDict m → IsDict (purge_grants r m)
unfolding purge_grants
purge_grants-IsDict r [] h = tt
purge_grants-IsDict r ((k, rooms) ∷ m) (new, h) =
    ground (arith, lookup-purge_grants-none r k m new, purge_grants-IsDict r m h)

is_empty-contains :
    (room : String) (rooms : List String) → is_empty rooms ≡ true → contains room rooms ≡ false
is_empty-contains room [] h = refl
is_empty-contains room (x ∷ xs) h = cc

cached-purge_grants :
    (r key room : String) (m : Dict (List String))
    → IsDict m
    → cached key room (purge_grants r m) ≡ (if r == room then false else cached key room m)
unfolding purge_grants lookup
cached-purge_grants r key room [] h = ground arith
cached-purge_grants r key room ((k, rooms) ∷ m) (new, h) =
    let rest = cached-purge_grants r key room m h in
    elim (Bool-cases (k == key)) [
      | inl e ↦
          let same : k ≡ key = (eq_iff k key).0 e in
          let gone : lookup key (purge_grants r m) ≡ none =
            lookup-purge_grants-none r key m (ap (λ j. lookup j m) (sym same) ∙ new) in
          elim (Bool-cases (is_empty (without r rooms))) [
            | inl empty ↦ ground (
              arith,
              e,
              empty,
              gone,
              is_empty-contains room (without r rooms),
              contains-without r room rooms,
            )
            | inr full ↦ ground (arith, e, full, contains-without r room rooms)
          ]
      | inr e ↦ ground (arith, e, rest)
    ]

any-delete_grants :
    (r key room : String) (rows : List (String × String))
    → any (granted_row key room) (delete_where (λ (g : String × String). g.1 == r) rows)
      ≡ (if r == room then false else any (granted_row key room) rows)
unfolding delete_where
any-delete_grants r key room [] = ground arith
any-delete_grants r key room ((k, q) ∷ rows) =
    ground (arith, eq_iff q r, eq_iff q room, eq_iff r room, any-delete_grants r key room rows)

delete_room_artifacts-Mirrors :
    (r : String) (s : Store) → Mirrors s → Mirrors (delete_room_artifacts r s)
unfolding delete_room_artifacts delete_room_artifacts_in_transaction purge_room_grants_from_cache
delete_room_artifacts-Mirrors r s h = record {
  dict = purge_grants-IsDict r s.grants h.dict;
  same = λ key room.
      cached-purge_grants r key room s.grants h.dict
      ∙ ap (λ b. if r == room then false else b) (h.same key room)
      ∙ sym (any-delete_grants r key room s.room_grants);
}

hydrate_grants-IsDict :
    (rows : List (String × String)) (m : Dict (List String))
    → IsDict m
    → IsDict (hydrate_grants rows m)
unfolding hydrate_grants
hydrate_grants-IsDict [] m h = h
hydrate_grants-IsDict ((k, r) ∷ rows) m h =
    hydrate_grants-IsDict rows (insert k (add_room r (unwrap_or (lookup k m) [])) m)
      (insert-IsDict k (add_room r (unwrap_or (lookup k m) [])) m h)

cached-hydrate_grants :
    (key room : String) (rows : List (String × String)) (m : Dict (List String))
    → cached key room (hydrate_grants rows m)
      ≡ (any (granted_row key room) rows || cached key room m)
unfolding hydrate_grants
cached-hydrate_grants key room [] m = refl
cached-hydrate_grants key room ((k, r) ∷ rows) m =
    cached-hydrate_grants key room rows (insert k (add_room r (unwrap_or (lookup k m) [])) m)
    ∙ ground (arith, cached-insert k key r room m)

-- A new start of the server: the cache is filled from the table.
abbrev pub reopened : Store → Store
reopened s = record s { grants = hydrate_grants s.room_grants [] }

pub reopened-Mirrors : (s : Store) → Mirrors (reopened s)
unfolding lookup
reopened-Mirrors s = record {
  dict = hydrate_grants-IsDict s.room_grants [] tt;
  same = λ key room.
      cached-hydrate_grants key room s.room_grants [] ∙ ground (arith, nothing_cached key room);
}
  where
    nothing_cached : (key room : String) → cached key room [] ≡ false
    nothing_cached key room = refl

pub data GrantCall : Type 0 where
  grants_room : String → String → GrantCall
  forgets_room : String → GrantCall
  reopens : GrantCall

abbrev pub grant_step : Store → GrantCall → Store
grant_step s (grants_room key room) = add_room_grant key room s
grant_step s (forgets_room room) = delete_room_artifacts room s
grant_step s reopens = reopened s

abbrev pub grant_run : Store → List GrantCall → Store
grant_run s [] = s
grant_run s (c ∷ cs) = grant_run (grant_step s c) cs

grant_run-Mirrors : (s : Store) (cs : List GrantCall) → Mirrors s → Mirrors (grant_run s cs)
grant_run-Mirrors s [] h = h
grant_run-Mirrors s (grants_room key room ∷ cs) h =
    grant_run-Mirrors (add_room_grant key room s) cs (add_room_grant-Mirrors key room s h)
grant_run-Mirrors s (forgets_room room ∷ cs) h =
    grant_run-Mirrors (delete_room_artifacts room s) cs (delete_room_artifacts-Mirrors room s h)
grant_run-Mirrors s (reopens ∷ cs) h = grant_run-Mirrors (reopened s) cs (reopened-Mirrors s)

-- From the start of the server, over any grants, deletions of a room's artifacts and restarts, the
-- cache grants a room to a key exactly where the key is not empty and the table has the row.
pub key_has_grant-room_grants :
    (s : Store) (cs : List GrantCall) (key room : String)
    → let after = grant_run (reopened s) cs in
      key_has_grant key room after
      ≡ (not (key == "") && any (granted_row key room) after.room_grants)
unfolding key_has_grant
key_has_grant-room_grants s cs key room =
    ap (λ b. not (key == "") && b)
      ((grant_run-Mirrors (reopened s) cs (reopened-Mirrors s)).same key room)
