-- ===== src/Store/Names.antt =====
-- `normalize_room_name` of crates/cowchat-server/src/store.rs, with what it uses of Rust's `char` and
-- `str`: `is_whitespace` is Unicode's White_Space, and `is_control` its category Cc.
use Prim.Native.Char.{Char, code}
use Prim.Native.String.{count}
use cowchat4win.Base.{
  ℕ, ◌≤◌, String, ◌≡◌, ◌≢◌, refl, sym, ap, ◌∙◌, Bool, true, false, not, ◌&&◌, ◌||◌, arith, ◌==◌,
  eq_iff, if◌then◌else◌, ltb, leb, eqb, Bool-cases, inl, inr,
}
use cowchat4win.Base.{Result, ok, err}

abbrev pub max_room_name_chars : ℕ
max_room_name_chars = 100

unfoldable pub is_whitespace : Char → Bool
is_whitespace c =
    let n = code c in
    leb 9 n && leb n 13
    || eqb n 32
    || eqb n 0x85
    || eqb n 0xa0
    || eqb n 0x1680
    || leb 0x2000 n && leb n 0x200a
    || eqb n 0x2028
    || eqb n 0x2029
    || eqb n 0x202f
    || eqb n 0x205f
    || eqb n 0x3000

unfoldable pub is_control : Char → Bool
is_control c = let n = code c in ltb n 32 || leb 127 n && leb n 159

unfoldable pub any_char : (Char → Bool) → String → Bool
any_char p String.[] = false
any_char p (String.◌∷◌ c s) = p c || any_char p s

unfoldable pub trim_start : String → String
trim_start String.[] = String.[]
trim_start (String.◌∷◌ c s) =
    let rest = trim_start s in if is_whitespace c then rest else String.◌∷◌ c s

-- A character is dropped where nothing but blanks follow it.
unfoldable pub trim_end : String → String
trim_end String.[] = String.[]
trim_end (String.◌∷◌ c s) =
    let rest = trim_end s in
    if is_whitespace c && rest == String.[] then String.[] else String.◌∷◌ c rest

unfoldable pub normalize_room_name : String → Result String String
unfolding trim_start trim_end any_char
normalize_room_name name =
    let normalized = trim_end (trim_start name) in
    if normalized == String.[]
    then err "Room name cannot be empty"
    else if any_char is_control normalized
    then err "Room name cannot contain control characters"
    else if ltb max_room_name_chars (count normalized)
    then err "Room name cannot exceed 100 Unicode scalar values"
    else ok normalized

trim_end-trim_end : (s : String) → trim_end (trim_end s) ≡ trim_end s
unfolding trim_end
trim_end-trim_end String.[] = refl
trim_end-trim_end (String.◌∷◌ c s) =
    elim (Bool-cases (is_whitespace c && trim_end s == String.[])) [
      | inl e ↦ rw e refl
      | inr e ↦ rw (e, trim_end-trim_end s, e) refl
    ]

-- The text is empty or starts with no blank.
unfoldable starts_solid : String → Bool
starts_solid String.[] = true
starts_solid (String.◌∷◌ c s) = not (is_whitespace c)

starts_solid-trim_start : (s : String) → starts_solid (trim_start s) ≡ true
unfolding trim_start starts_solid
starts_solid-trim_start String.[] = refl
starts_solid-trim_start (String.◌∷◌ c s) = elim (Bool-cases (is_whitespace c)) [
  | inl e ↦ rw e (starts_solid-trim_start s)
  | inr e ↦ rw (e, starts_solid, e) refl
]

trim_start_solid : (s : String) → starts_solid s ≡ true → trim_start s ≡ s
unfolding trim_start starts_solid
trim_start_solid String.[] h = refl
trim_start_solid (String.◌∷◌ c s) h = ground (arith, h)

starts_solid-trim_end : (s : String) → starts_solid s ≡ true → starts_solid (trim_end s) ≡ true
unfolding trim_end starts_solid
starts_solid-trim_end String.[] h = refl
starts_solid-trim_end (String.◌∷◌ c s) h = elim (Bool-cases (is_whitespace c)) [
  | inl e ↦ absurd (ground (arith, e, h))
  | inr e ↦ rw (e, starts_solid, e) refl
]

abbrev trimmed : String → String
trimmed name = trim_end (trim_start name)

trimmed-trimmed : (name : String) → trimmed (trimmed name) ≡ trimmed name
trimmed-trimmed name =
    ap trim_end (
      trim_start_solid (trimmed name)
        (starts_solid-trim_end (trim_start name) (starts_solid-trim_start name)))
    ∙ trim_end-trim_end (trim_start name)

-- What the three tests of a name ask for.
pub record IsCanonical (n : String) : Type 0 where
  pub not_empty : n ≢ String.[]
  pub no_control : any_char is_control n ≡ false
  pub short : count n ≤ max_room_name_chars
  pub is_trimmed : trim_end (trim_start n) ≡ n

accepted :
    (name n : String)
    → normalize_room_name name ≡ ok n
    → (trimmed name ≡ n)
      × ((trimmed name == String.[]) ≡ false)
      × (any_char is_control (trimmed name) ≡ false)
      × (ltb max_room_name_chars (count (trimmed name)) ≡ false)
unfolding normalize_room_name
accepted name n h = elim (Bool-cases (trimmed name == String.[])) [
  | inl e ↦ absurd (ground (arith, e, h))
  | inr e ↦ elim (Bool-cases (any_char is_control (trimmed name))) [
    | inl c ↦ absurd (ground (arith, e, c, h))
    | inr c ↦ elim (Bool-cases (ltb max_room_name_chars (count (trimmed name)))) [
      | inl l ↦ absurd (ground (arith, e, c, l, h))
      | inr l ↦ (ground (arith, e, c, l, h), e, c, l)
    ]
  ]
]

-- A name that is accepted has a canonical form: trimmed, not empty, without control characters and
-- of no more than a hundred characters; and normalizing it again gives it back.
pub normalize_room_name-IsCanonical :
    (name n : String)
    → normalize_room_name name ≡ ok n
    → IsCanonical n × (normalize_room_name n ≡ ok n)
unfolding normalize_room_name
normalize_room_name-IsCanonical name n h =
    let (same, e, c, l) = accepted name n h in
    let again : trimmed n ≡ n = ap trimmed (sym same) ∙ trimmed-trimmed name ∙ same in
    let e' : (n == String.[]) ≡ false = ap (λ s. s == String.[]) (sym same) ∙ e in
    let c' : any_char is_control n ≡ false = ap (any_char is_control) (sym same) ∙ c in
    let l' : ltb max_room_name_chars (count n) ≡ false =
      ap (λ s. ltb max_room_name_chars (count s)) (sym same) ∙ l in
    (
      record {
        not_empty = λ x. ground (arith, e', eq_iff n String.[], x);
        no_control = c';
        short = ground (arith, l');
        is_trimmed = again;
      },
      rw (again, e', c', l') refl,
    )
