-- ===== src/Store/Invites/Redeem.antt =====
-- How often an invite is redeemed.
use cowchat4win.Base.{
  ℕ, ◌+◌, ◌≤◌, String, ◌≡◌, sym, ap, ◌∙◌, Bool, true, false, Option, some, List, [], ◌∷◌, ◌==◌,
  ◌&&◌, arith, eq_iff, if◌then◌else◌, is_some, Bool-cases, Option-cases, inl, inr,
}
use cowchat4win.Base.Dict.{lookup, contains_key, lookup-insert}
use cowchat4win.Store.{Store, InviteMeta}
use cowchat4win.Store.Invites.{create_invite, redeem_invite, revoke_invite}

pub data InviteCall : Type 0 where
  creates : String → String → String → Bool → InviteCall
  redeems : String → InviteCall
  revokes : String → InviteCall

-- Whether the call redeemed the invite of that hash, and the store after it.
abbrev pub invite_step : String → Store → InviteCall → ℕ × Store
invite_step h s (creates token room key single) = (0, (create_invite token room key single s).1)
invite_step h s (redeems token) =
    let (room, s') = redeem_invite token s in ((if token == h && is_some room then 1 else 0), s')
invite_step h s (revokes token) = (0, (revoke_invite token s).1)

abbrev pub invite_run : String → Store → List InviteCall → ℕ × Store
invite_run h s [] = (0, s)
invite_run h s (c ∷ cs) =
    let (won, s') = invite_step h s c in let (more, s'') = invite_run h s' cs in (won + more, s'')

-- How many redemptions an invite has left, if it is single-use.
abbrev pub left : InviteMeta → ℕ
left i = if i.revoked then 0 else 1

-- A single-use invite after a call.
record Spent (h : String) (before : ℕ) (r : ℕ × Store) : Type 0 where
  invite : InviteMeta
  found : lookup h r.1.invites ≡ some invite
  single : invite.single_use ≡ true
  budget : r.0 + left invite ≤ before

create_invite-Spent :
    (h token room key : String) (single : Bool) (s : Store) (i : InviteMeta)
    → lookup h s.invites ≡ some i
    → i.single_use ≡ true
    → Spent h (left i) (0, (create_invite token room key single s).1)
unfolding create_invite
create_invite-Spent h token room key single s i e one =
    elim (Bool-cases (contains_key token s.invites)) [
      | inl c ↦
          rw (c, create_invite)
            (record { invite = i; found = e; single = one; budget = omega arith })
      | inr c ↦
          rw (c, create_invite)
            (record {
              invite = i;
              found = ground (
                arith,
                c,
                e,
                eq_iff token h,
                lookup-insert token h
                    (record {
                      room_id = room;
                      created_by_key = key;
                      single_use = single;
                      redeemed_count = 0;
                      revoked = false;
                    })
                    s.invites,
              );
              single = one;
              budget = omega arith;
            })
    ]

abbrev won : String → String → Option String × Store → ℕ × Store
won h token (room, s) = ((if token == h && is_some room then 1 else 0), s)

redeem_invite-Spent :
    (h token : String) (s : Store) (i : InviteMeta)
    → lookup h s.invites ≡ some i
    → i.single_use ≡ true
    → Spent h (left i) (won h token (redeem_invite token s))
unfolding redeem_invite
redeem_invite-Spent h token s i e one = elim (Option-cases (lookup token s.invites)) [
  | inl n ↦
      rw (n, redeem_invite) (record { invite = i; found = e; single = one; budget = ground arith })
  | inr (j, f) ↦ elim (Bool-cases j.revoked) [
    | inl r ↦
        rw (f, r, redeem_invite)
          (record { invite = i; found = e; single = one; budget = ground arith })
    | inr r ↦
        let j' : InviteMeta = record j {
          redeemed_count = j.redeemed_count + 1;
          revoked = if j.single_use then true else j.revoked;
        } in
        elim (Bool-cases (token == h)) [
          | inl same ↦
              let eq : token ≡ h = (eq_iff token h).0 same in
              let both : some j ≡ some i = sym f ∙ ap (λ t. lookup t s.invites) eq ∙ e in
              let meta : j ≡ i = cc in
              let single' : j.single_use ≡ true =
                ap (λ (x : InviteMeta). x.single_use) meta ∙ one in
              let open' : i.revoked ≡ false = ap (λ (x : InviteMeta). x.revoked) (sym meta) ∙ r in
              rw (f, r, redeem_invite)
                (record {
                  invite = j';
                  found = ground (arith, same, lookup-insert token h j' s.invites);
                  single = single';
                  budget = ground (arith, same, single', open');
                })
          | inr other ↦
              rw (f, r, redeem_invite)
                (record {
                  invite = i;
                  found = ground (arith, other, e, lookup-insert token h j' s.invites);
                  single = one;
                  budget = ground (arith, other);
                })
        ]
  ]
]

revoke_invite-Spent :
    (h token : String) (s : Store) (i : InviteMeta)
    → lookup h s.invites ≡ some i
    → i.single_use ≡ true
    → Spent h (left i) (0, (revoke_invite token s).1)
unfolding revoke_invite
revoke_invite-Spent h token s i e one = elim (Option-cases (lookup token s.invites)) [
  | inl n ↦
      rw (n, revoke_invite) (record { invite = i; found = e; single = one; budget = omega arith })
  | inr (j, f) ↦
      let j' : InviteMeta = record j { revoked = true } in
      elim (Bool-cases (token == h)) [
        | inl same ↦
            let eq : token ≡ h = (eq_iff token h).0 same in
            let both : some j ≡ some i = sym f ∙ ap (λ t. lookup t s.invites) eq ∙ e in
            let meta : j ≡ i = cc in
            rw (f, revoke_invite)
              (record {
                invite = j';
                found = ground (arith, same, lookup-insert token h j' s.invites);
                single = ap (λ (x : InviteMeta). x.single_use) meta ∙ one;
                budget = ground arith;
              })
        | inr other ↦
            rw (f, revoke_invite)
              (record {
                invite = i;
                found = ground (arith, other, e, lookup-insert token h j' s.invites);
                single = one;
                budget = omega arith;
              })
      ]
]

invite_step-Spent :
    (h : String) (s : Store) (c : InviteCall) (i : InviteMeta)
    → lookup h s.invites ≡ some i
    → i.single_use ≡ true
    → Spent h (left i) (invite_step h s c)
invite_step-Spent h s (creates token room key single) i e one =
    create_invite-Spent h token room key single s i e one
invite_step-Spent h s (redeems token) i e one = redeem_invite-Spent h token s i e one
invite_step-Spent h s (revokes token) i e one = revoke_invite-Spent h token s i e one

-- Over any creations, redemptions and revocations of invites, a single-use invite that exists is
-- redeemed once at most, and never if it was revoked or used up.
pub single_use_once :
    (h : String) (s : Store) (cs : List InviteCall) (i : InviteMeta)
    → lookup h s.invites ≡ some i
    → i.single_use ≡ true
    → (invite_run h s cs).0 ≤ left i
single_use_once h s [] i e one = omega arith
single_use_once h s (c ∷ cs) i e one =
    let spent = invite_step-Spent h s c i e one in
    let rest = single_use_once h (invite_step h s c).1 cs spent.invite spent.found spent.single in
    omega (arith, spent.budget, rest)
