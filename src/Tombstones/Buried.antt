-- ===== src/Tombstones/Buried.antt =====
-- A tombstone through later prunings and burials.
use cowchat4win.Base.{
  ℕ, suc, ◌-◌, ◌≤◌, ◌<◌, String, ◌≡◌, some, arith, eq_refl, ◌==◌, Bool-cases, inl, inr,
}
use cowchat4win.Base.Dict.{Dict, lookup, insert, IsDict, lookup-insert, insert-IsDict}
use cowchat4win.Tombstones.{prune, bury}
use cowchat4win.Tombstones.Laws.{
  count_since, prune-IsDict, prune_keeps, count_since_mono, count_since-prune, count_since-insert,
}

-- A room that was buried at `t` or later, with at most `n` burials since `t`.
pub record Buried (t n : ℕ) (k : String) (m : Dict ℕ) : Type 0 where
  pub dict : IsDict m
  pub stamp : ℕ
  pub since : t ≤ stamp
  pub found : lookup k m ≡ some stamp
  pub few : count_since t m ≤ n

module _ (ttl limit t n now : ℕ) (k : String) (m : Dict ℕ) (v : Buried t n k m) (room : n ≤ limit)
    (live : now - t < ttl) where
  -- While the room's tombstone is young and not crowded out, pruning keeps it.
  pub prune-Buried : Buried t n k (prune ttl limit now m)
  prune-Buried = record {
    dict = prune-IsDict ttl limit now m v.dict;
    stamp = v.stamp;
    since = v.since;
    found =
        prune_keeps ttl limit now m k v.stamp v.dict v.found (omega (arith, v.since))
          (omega (arith, count_since_mono t v.stamp m v.since, v.few));
    few = omega (arith, count_since-prune t ttl limit now m, v.few);
  }

insert-Buried :
    (t n now : ℕ) (k j : String) (m : Dict ℕ) (v : Buried t n k m)
    → t ≤ now
    → Buried t (suc n) k (insert j now m)
insert-Buried t n now k j m v h = elim (Bool-cases (j == k)) [
  | inl e ↦ record {
    dict = insert-IsDict j now m v.dict;
    stamp = now;
    since = h;
    found = rw (lookup-insert j k now m, e);
    few = omega (arith, count_since-insert t j now m, v.few);
  }
  | inr e ↦ record {
    dict = insert-IsDict j now m v.dict;
    stamp = v.stamp;
    since = v.since;
    found = rw (lookup-insert j k now m, e) v.found;
    few = omega (arith, count_since-insert t j now m, v.few);
  }
]

-- One more burial, of this room or another.
pub bury-Buried :
    (ttl limit t n now : ℕ) (k j : String) (m : Dict ℕ)
    → Buried t n k m
    → n < limit
    → t ≤ now
    → now - t < ttl
    → Buried t (suc n) k (bury ttl limit now j m)
unfolding bury
bury-Buried ttl limit t n now k j m v room h live =
    prune-Buried ttl limit t (suc n) now k _
      (insert-Buried t n now k j _ (prune-Buried ttl limit t n now k m v (omega arith) live) h) room
      live

-- The first burial, where nothing else was buried at `now` or later.
pub bury-Buried_self :
    (ttl limit now : ℕ) (k : String) (m : Dict ℕ)
    → IsDict m
    → count_since now m ≡ 0
    → 0 < ttl
    → 0 < limit
    → Buried now 1 k (bury ttl limit now k m)
unfolding bury
bury-Buried_self ttl limit now k m d none_later pos room =
    let p = prune ttl limit now m in
    prune-Buried ttl limit now 1 now k (insert k now p)
      (record {
        dict = insert-IsDict k now p (prune-IsDict ttl limit now m d);
        stamp = now;
        since = omega arith;
        found = rw (lookup-insert k k now p, eq_refl k);
        few = omega (
          arith,
          count_since-insert now k now p,
          count_since-prune now ttl limit now m,
          none_later,
        );
      })
      room (omega arith)
