-- ===== src/Store/Messages/Paging.antt =====
-- Reading a room page by page, as a client does that asks with the last number it has.
use cowchat4win.Base.{
  ℕ, zero, suc, ◌-◌, ◌≤◌, ◌<◌, String, ◌≡◌, refl, sym, ap, ◌∙◌, ◌&&◌, List, [], ◌∷◌, ◌++◌, arith,
  ltb, length, retain, Bool-cases, inl, inr,
}
use cowchat4win.Base.Tables.{take, order_by, insert_ordered}
use cowchat4win.Store.{Store, MessageRow}
use cowchat4win.Store.Messages.{in_room, by_seq, history_since_seq, high_water}
use cowchat4win.Store.Messages.Sequence.{Rising, Numbered}

-- The number of the last message read.
abbrev pub last_seq : ℕ → List MessageRow → ℕ
last_seq cursor [] = cursor
last_seq cursor (m ∷ ms) = last_seq m.seq ms

-- Page after page, until one is empty.
abbrev pub read_pages : ℕ → String → ℕ → ℕ → Store → List MessageRow
read_pages zero room_id limit cursor s = []
read_pages (suc fuel) room_id limit cursor s =
    let page = history_since_seq room_id limit cursor s in
    page ++ read_pages fuel room_id limit (last_seq cursor page) s

abbrev pub drop : ℕ → List MessageRow → List MessageRow
drop zero ms = ms
drop (suc n) [] = []
drop (suc n) (m ∷ ms) = drop n ms

abbrev pub after : ℕ → List MessageRow → List MessageRow
after c ms = retain (λ (m : MessageRow). ltb c m.seq) ms

-- The rows come in the order that is asked for.
order_by-Rising : (lo hi : ℕ) (ms : List MessageRow) → Rising lo hi ms → order_by by_seq ms ≡ ms
unfolding order_by
order_by-Rising lo hi [] h = refl
order_by-Rising lo hi (m ∷ ms) (a, h) =
    ap (insert_ordered by_seq m) (order_by-Rising m.seq hi ms h) ∙ insert_first m hi ms h
  where
    insert_first :
        (m : MessageRow) (hi : ℕ) (ms : List MessageRow)
        → Rising m.seq hi ms
        → insert_ordered by_seq m ms ≡ m ∷ ms
    insert_first m hi [] h = refl
    insert_first m hi (n ∷ ms) (a, h) = ground (arith, a)

after-Rising : (c lo hi : ℕ) (ms : List MessageRow) → c ≤ lo → Rising lo hi ms → after c ms ≡ ms
after-Rising c lo hi [] le h = refl
after-Rising c lo hi (m ∷ ms) le (a, h) =
    ground (arith, a, after-Rising c m.seq hi ms (omega (arith, a)) h)

Rising-after :
    (c lo hi : ℕ) (ms : List MessageRow) → c ≤ hi → Rising lo hi ms → Rising c hi (after c ms)
Rising-after c lo hi [] le h = le
Rising-after c lo hi (m ∷ ms) le (a, h) = elim (Bool-cases (ltb c m.seq)) [
  | inl e ↦ rw (e, after-Rising c m.seq hi ms (ground (arith, e)) h) (ground (arith, e), h)
  | inr e ↦ rw e (Rising-after c m.seq hi ms le h)
]

last_seq-le :
    (n lo hi : ℕ) (ms : List MessageRow)
    → Rising lo hi ms
    → (lo ≤ last_seq lo (take n ms)) × (last_seq lo (take n ms) ≤ hi)
last_seq-le zero lo hi ms h = (omega arith, Rising_bound lo hi ms h)
  where
    Rising_bound : (lo hi : ℕ) (ms : List MessageRow) → Rising lo hi ms → lo ≤ hi
    Rising_bound lo hi [] h = h
    Rising_bound lo hi (m ∷ ms) (a, h) = omega (arith, a, Rising_bound m.seq hi ms h)
last_seq-le (suc n) lo hi [] h = (omega arith, h)
last_seq-le (suc n) lo hi (m ∷ ms) (a, h) =
    let (low, high) = last_seq-le n m.seq hi ms h in (omega (arith, a, low), high)

-- What comes after the last message of a page is the rest.
after-last_seq :
    (n lo hi : ℕ) (ms : List MessageRow)
    → Rising lo hi ms
    → after (last_seq lo (take n ms)) ms ≡ drop n ms
after-last_seq zero lo hi ms h = after-Rising lo lo hi ms (omega arith) h
after-last_seq (suc n) lo hi [] h = refl
after-last_seq (suc n) lo hi (m ∷ ms) (a, h) =
    let (low, high) = last_seq-le n m.seq hi ms h in
    ground (arith, low, after-last_seq n m.seq hi ms h)

after-after : (c d : ℕ) (ms : List MessageRow) → c ≤ d → after d (after c ms) ≡ after d ms
after-after c d [] h = refl
after-after c d (m ∷ ms) h = ground (arith, after-after c d ms h)

retain-after :
    (k : String) (c : ℕ) (ms : List MessageRow)
    → retain (λ r. in_room k r && ltb c r.seq) ms ≡ after c (retain (in_room k) ms)
retain-after k c [] = refl
retain-after k c (m ∷ ms) = ground (arith, retain-after k c ms)

take-drop : (n : ℕ) (ms : List MessageRow) → take n ms ++ drop n ms ≡ ms
take-drop zero ms = refl
take-drop (suc n) [] = refl
take-drop (suc n) (m ∷ ms) = ap (λ r. m ∷ r) (take-drop n ms)

length-drop : (n : ℕ) (ms : List MessageRow) → length (drop n ms) ≡ length ms - n
length-drop zero ms = omega arith
length-drop (suc n) [] = omega arith
length-drop (suc n) (m ∷ ms) = omega (arith, length-drop n ms)

-- A page is the beginning of what comes after the cursor.
history_since_seq-take :
    (k : String) (limit c : ℕ) (s : Store)
    → Numbered k s
    → c ≤ high_water k s
    → history_since_seq k limit c s ≡ take limit (after c (retain (in_room k) s.messages))
unfolding history_since_seq
history_since_seq-take k limit c s h le =
    let rows = retain (in_room k) s.messages in
    ap (λ l. take limit (order_by by_seq l)) (retain-after k c s.messages)
    ∙ ap (take limit) (
        order_by-Rising c (high_water k s) (after c rows)
          (Rising-after c 0 (high_water k s) rows le h))

-- In a room whose messages stand in the order of their numbers, reading by pages of any size but
-- zero from a cursor no later than the tip gives each later message once, in order: as many pages
-- as there are messages are enough.
pub read_pages_complete :
    (fuel : ℕ) (k : String) (limit c : ℕ) (s : Store)
    → Numbered k s
    → 0 < limit
    → c ≤ high_water k s
    → length (after c (retain (in_room k) s.messages)) ≤ fuel
    → read_pages fuel k limit c s ≡ after c (retain (in_room k) s.messages)
read_pages_complete zero k limit c s h pos le enough =
    sym (empty (after c (retain (in_room k) s.messages)) enough)
  where
    empty : (ms : List MessageRow) → length ms ≤ 0 → ms ≡ []
    empty [] h = refl
    empty (m ∷ ms) h = absurd (omega arith)
read_pages_complete (suc fuel) k limit c s h pos le enough =
    let rows = after c (retain (in_room k) s.messages) in
    let rising : Rising c (high_water k s) rows =
      Rising-after c 0 (high_water k s) (retain (in_room k) s.messages) le h in
    let d : ℕ = last_seq c (take limit rows) in
    let (low, high) = last_seq-le limit c (high_water k s) rows rising in
    let left : after d (retain (in_room k) s.messages) ≡ drop limit rows =
      sym (after-after c d (retain (in_room k) s.messages) low)
      ∙ after-last_seq limit c (high_water k s) rows rising in
    let rest : read_pages fuel k limit d s ≡ after d (retain (in_room k) s.messages) =
      read_pages_complete fuel k limit d s h pos high
        (omega (arith, ap length left, length-drop limit rows, enough)) in
    ap (λ page. page ++ read_pages fuel k limit (last_seq c page) s)
      (history_since_seq-take k limit c s h le)
    ∙ ap (λ r. take limit rows ++ r) (rest ∙ left)
    ∙ take-drop limit rows
