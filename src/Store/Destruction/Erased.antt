-- ===== src/Store/Destruction/Erased.antt =====
-- What is left of a destroyed room.
use cowchat4win.Base.{
  String, ◌≡◌, refl, sym, ◌∙◌, subst, Bool, true, false, none, some, List, [], ◌∷◌, ◌==◌, ◌⊎◌,
  arith, eq_refl, any, map, contains, contains-without, without, is_empty, Bool-cases, Option-cases,
  inl, inr,
}
use cowchat4win.Base.Dict.{Dict, lookup, lookup-remove}
use cowchat4win.Base.Tables.{update_where, delete_where, any-delete_where}
use cowchat4win.Models.{Room, TaskInfo}
use cowchat4win.Base.{ok, err}
use cowchat4win.Store.{
  Store, RoomRow, MessageRow, VoteMeta, BallotRow, SubscriptionRow, DeliveryRow, InviteMeta,
  DestroyRoomError, destroy_not_found, destroy_access_denied, destroy_protected_room,
}
use cowchat4win.Store.Rooms.{has_room_id, is_text, query_room_by_id, is_protected, may_mutate}
use cowchat4win.Store.Messages.{in_room, detached, delete_messages}
use cowchat4win.Store.Messages.Sequence.{seq-detached}
use cowchat4win.Store.Destruction.Granted.{
  Destroyable, Refused, protected_room, open_room, tests-Destroyable, Destroyable-tests,
}
use cowchat4win.Store.Destruction.{
  vote_in_room, sub_in_room, remove_invites, delete_room_artifacts_in_transaction, detach_children,
  detach_children_and_delete_room_artifacts, purge_grants, purge_room_grants_from_cache,
  destroy_room_authorized,
}

-- No row of any table is the room's, by its own column or by its vote's or subscription's, no room
-- hangs under it, and no key has a cached grant for it. `votes` and `subs` are the rows before.
pub record IsErased (k : String) (votes : List VoteMeta) (subs : List SubscriptionRow) (s : Store)
    : Type 0 where
  pub no_room : any (has_room_id k) s.rooms ≡ false
  pub no_child : any (λ (r : RoomRow). is_text r.parent_id k) s.rooms ≡ false
  pub no_message : any (in_room k) s.messages ≡ false
  pub no_sequence : lookup k s.sequences ≡ none
  pub no_vote : any (λ (v : VoteMeta). v.room_id == k) s.votes ≡ false
  pub no_ballot : any (λ (b : BallotRow). vote_in_room k votes b.vote_id) s.ballots ≡ false
  pub no_voter : any (λ (e : String × String). vote_in_room k votes e.0) s.eligible ≡ false
  pub no_task : any (λ (t : TaskInfo). t.room_id == k) s.tasks ≡ false
  pub no_subscription : any (λ (r : SubscriptionRow). r.sub.room_id == k) s.subscriptions ≡ false
  pub no_delivery :
      any (λ (d : DeliveryRow). sub_in_room k subs d.subscription_id) s.deliveries ≡ false
  pub no_invite :
      (h : String) (i : InviteMeta) → lookup h s.invites ≡ some i → (i.room_id == k) ≡ false
  pub no_grant : any (λ (g : String × String). g.1 == k) s.room_grants ≡ false
  pub no_cached_grant :
      (key : String) (rooms : List String)
      → lookup key s.grants ≡ some rooms
      → contains k rooms ≡ false

any-delete_messages :
    (k : String) (all ms : List MessageRow)
    → any (in_room k) (map (detached (λ m. in_room k m) all) (delete_where (λ m. in_room k m) ms))
      ≡ false
unfolding delete_where
any-delete_messages k all [] = refl
any-delete_messages k all (m ∷ ms) = elim (Bool-cases (in_room k m)) [
  | inl e ↦ rw e (any-delete_messages k all ms)
  | inr e ↦ rw e (rw ((seq-detached (λ m. in_room k m) all m).1, e) (any-delete_messages k all ms))
]

any-detached :
    (k : String) (rooms : List RoomRow)
    → any
        (λ (r : RoomRow). is_text r.parent_id k)
        (update_where
          (λ (r : RoomRow). is_text r.parent_id k)
          (λ (r : RoomRow). record r { parent_id = none })
          rooms)
      ≡ false
unfolding update_where
any-detached k [] = refl
any-detached k (r ∷ rooms) = elim (Bool-cases (is_text r.parent_id k)) [
  | inl e ↦ rw e (any-detached k rooms)
  | inr e ↦ rw e (rw e (any-detached k rooms))
]

any-delete-other :
    (p q : RoomRow → Bool) (rooms : List RoomRow)
    → any p rooms ≡ false
    → any p (delete_where q rooms) ≡ false
unfolding delete_where
any-delete-other p q [] h = refl
any-delete-other p q (r ∷ rooms) h = ground (arith, h, any-delete-other p q rooms)

lookup-remove_invites :
    (k h : String) (i : InviteMeta) (m : Dict InviteMeta)
    → lookup h (remove_invites k m) ≡ some i
    → (i.room_id == k) ≡ false
unfolding remove_invites lookup
lookup-remove_invites k h i [] e = cc
lookup-remove_invites k h i ((t, j) ∷ m) e = elim (Bool-cases (j.room_id == k)) [
  | inl gone ↦ lookup-remove_invites k h i m (ground (arith, gone, e))
  | inr stays ↦ elim (Bool-cases (t == h)) [
    | inl same ↦
        let both : some j ≡ some i = ground (arith, stays, same, e) in
        let eq : j ≡ i = cc in subst (λ (x : InviteMeta). (x.room_id == k) ≡ false) eq stays
    | inr other ↦ lookup-remove_invites k h i m (ground (arith, stays, other, e))
  ]
]

lookup-purge_grants :
    (k key : String) (rooms : List String) (m : Dict (List String))
    → lookup key (purge_grants k m) ≡ some rooms
    → contains k rooms ≡ false
unfolding purge_grants lookup
lookup-purge_grants k key rooms [] e = cc
lookup-purge_grants k key rooms ((j, rs) ∷ m) e = elim (Bool-cases (is_empty (without k rs))) [
  | inl empty ↦ lookup-purge_grants k key rooms m (ground (arith, empty, e))
  | inr full ↦ elim (Bool-cases (j == key)) [
    | inl same ↦
        let both : some (without k rs) ≡ some rooms = ground (arith, full, same, e) in
        let eq : without k rs ≡ rooms = cc in
        subst (λ xs. contains k xs ≡ false) eq (ground (arith, contains-without k k rs, eq_refl k))
    | inr other ↦ lookup-purge_grants k key rooms m (ground (arith, full, other, e))
  ]
]

-- The store after a destruction that was granted.
abbrev destroyed_store : String → Store → Store
destroyed_store k s =
    let s' = detach_children_and_delete_room_artifacts k s in
    purge_room_grants_from_cache k (record s' { rooms = delete_where (has_room_id k) s'.rooms })

destroyed_store-IsErased :
    (k : String) (s : Store) → IsErased k s.votes s.subscriptions (destroyed_store k s)
unfolding detach_children_and_delete_room_artifacts delete_room_artifacts_in_transaction
    detach_children purge_room_grants_from_cache delete_messages
destroyed_store-IsErased k s = record {
  no_room = any-delete_where (has_room_id k) (
      update_where (λ (r : RoomRow). is_text r.parent_id k)
        (λ (r : RoomRow). record r { parent_id = none }) s.rooms);
  no_child =
      any-delete-other (λ (r : RoomRow). is_text r.parent_id k) (has_room_id k)
        (update_where (λ (r : RoomRow). is_text r.parent_id k)
          (λ (r : RoomRow). record r { parent_id = none }) s.rooms)
        (any-detached k s.rooms);
  no_message = any-delete_messages k s.messages s.messages;
  no_sequence = ground (arith, eq_refl k, lookup-remove k k s.sequences);
  no_vote = any-delete_where (λ (v : VoteMeta). v.room_id == k) s.votes;
  no_ballot = any-delete_where (λ (b : BallotRow). vote_in_room k s.votes b.vote_id) s.ballots;
  no_voter = any-delete_where (λ (e : String × String). vote_in_room k s.votes e.0) s.eligible;
  no_task = any-delete_where (λ (t : TaskInfo). t.room_id == k) s.tasks;
  no_subscription = any-delete_where (λ (r : SubscriptionRow). r.sub.room_id == k) s.subscriptions;
  no_delivery =
      any-delete_where (λ (d : DeliveryRow). sub_in_room k s.subscriptions d.subscription_id)
        s.deliveries;
  no_invite = λ h i e. lookup-remove_invites k h i s.invites e;
  no_grant = any-delete_where (λ (g : String × String). g.1 == k) s.room_grants;
  no_cached_grant = λ key rooms e. lookup-purge_grants k key rooms s.grants e;
}

-- A destruction is granted exactly to the creator of a room other than the lobby, with a key that
-- owns it (with authentication off any key does, unless the room has the legacy marker), and then
-- nothing of the room is left in any table or in the cache; otherwise nothing changes, and the answer
-- tells a room that is not there, the lobby and rooms without a creator, and others apart.
pub destroy_room_authorized-IsErased :
    (k agent key : String) (no_auth : Bool) (s : Store)
    → let (r, s') = destroy_room_authorized k agent key no_auth s in
      ((room : Room) × (r ≡ ok room)
        × Destroyable k agent key no_auth s room
        × IsErased k s.votes s.subscriptions s')
      ⊎ ((e : DestroyRoomError) × (r ≡ err e)
          × (s' ≡ s)
          × Refused k s e
          × ((room : Room) → ¬ Destroyable k agent key no_auth s room))
unfolding destroy_room_authorized
destroy_room_authorized-IsErased k agent key no_auth s =
    elim (Option-cases (query_room_by_id k s)) [
      | inl e ↦
          rw (e, destroy_room_authorized)
            (inr (destroy_not_found, refl, refl, e, λ room d. absent room (sym e ∙ d.found)))
      | inr (room, e) ↦
          let fits : (other : Room)
              → Destroyable k agent key no_auth s other
              → (is_protected room ≡ false) × (may_mutate room agent key no_auth ≡ true) =
            λ other d. Destroyable-tests k agent key no_auth s room other e d in
          elim (Bool-cases (is_protected room)) [
            | inl p ↦
                rw (e, p, destroy_room_authorized)
                  (inr (
                    destroy_protected_room,
                    refl,
                    refl,
                    (room, e, protected_room room p),
                    λ other d. clash p (fits other d).0,
                  ))
            | inr p ↦ elim (Bool-cases (may_mutate room agent key no_auth)) [
              | inr a ↦
                  rw (e, p, a, destroy_room_authorized)
                    (inr (
                      destroy_access_denied,
                      refl,
                      refl,
                      (room, e, (open_room room p).0, (open_room room p).1),
                      λ other d. clash (fits other d).1 a,
                    ))
              | inl a ↦
                  rw (e, p, a, destroy_room_authorized)
                    (inl (
                      room,
                      refl,
                      tests-Destroyable k agent key no_auth s room e p a,
                      destroyed_store-IsErased k s,
                    ))
            ]
          ]
    ]
  where
    absent : (room : Room) → none ≡ some room → ⊥
    absent room e = cc

    clash : {b : Bool} → b ≡ true → b ≡ false → ⊥
    clash t f = let both : true ≡ false = sym t ∙ f in cc
