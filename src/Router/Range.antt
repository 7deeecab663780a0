-- ===== src/Router/Range.antt =====
-- `RangeToIndex` of src/RouterSeletor.cc: its array, and the forms of a range as intervals of two-byte
-- keys.
use svnsrv.Base.{
  ◌==◌, leb, ◌||◌, Bool-cases, ℕ, ◌+◌, ◌^◌, ◌≤◌, ◌<◌, true, [], ◌∷◌, ◌++◌, some, ◌≡◌, ◌≢◌, inl, inr,
  refl, length, length-set, set, get_or, arith,
}
use svnsrv.Base.Run.{done, Ensures, bind-Ensures}
use svnsrv.Base.Text.{Bytes}
use svnsrv.Router.{Fill, start, fill_byte, fill, no_tilde, index_of, range_to_index}

-- The array keeps its length, and the pointer is at most two ahead of the counter.
record Inv (s : Fill) : Type 0 where
  size : length s.cells ≡ 8
  ahead : s.p ≤ s.i + 2
  count : s.i ≤ 5

fill_byte-Inv : (s : Fill) (c : ℕ) → Inv s → s.i < 5 → Ensures Inv (fill_byte s c)
unfolding fill_byte
fill_byte-Inv s c v h = ground (arith, length-set s.cells s.p c)

fill-Inv : (range : Bytes) (s : Fill) → Inv s → Ensures Inv (fill range s)
unfolding fill
fill-Inv [] s v = v
fill-Inv (c ∷ cs) s v = elim (Bool-cases (c == 0 || leb 5 s.i)) [
  | inl e ↦ rw (e, fill) v
  | inr e ↦
      rw (e, fill)
        (bind-Ensures Inv Inv (fill_byte s c) (fill cs) (fill_byte-Inv s c v (ground arith))
          (fill-Inv cs))
]

no_tilde-size :
    (range : Bytes) (s : Fill) → Inv s → Ensures (λ cells. length cells ≡ 8) (no_tilde range s)
unfolding no_tilde
no_tilde-size range s v = ground (
  arith,
  length-set s.cells 2 (get_or range 0 0),
  length-set (set s.cells 2 (get_or range 0 0)) 3 (get_or range 1 0),
)

-- Whatever text is given for a range, every write of `RangeToIndex` stays within its array of 8
-- bytes; it returns true, with two ends that fit 16 bits.
pub range_to_index_bounds :
    (range : Bytes) (l r : ℕ)
    → Ensures
        (λ res. (res.0 ≡ true) × (res.1 < 2 ^ 16) × (res.2 < 2 ^ 16))
        (range_to_index (some range) l r)
unfolding range_to_index
range_to_index_bounds range l r =
    bind-Ensures Inv _ (fill range start) _ (fill-Inv range start (omega arith)) λ s v.
      bind-Ensures (λ cells. length cells ≡ 8) _ (no_tilde range s) _ (no_tilde-size range s v)
        λ cells h. (refl, omega arith, omega arith)

-- A letter of a range: no zero byte and no tilde.
abbrev pub IsLetter : ℕ → Type 0
IsLetter c = (0 < c) × (c < 128) × (c ≢ b'~')

-- An end of a range, of one or two letters.
pub data Side : Type 0 where
  letter : ℕ → Side
  letters : ℕ → ℕ → Side

-- The forms of a range in the routing table: `A`, `Aa`, and two ends with a tilde between them.
pub data Form : Type 0 where
  one : Side → Form
  between : Side → Side → Form

abbrev pub side_text : Side → Bytes
side_text (letter a) = a ∷ []
side_text (letters a b) = a ∷ b ∷ []

abbrev pub form_text : Form → Bytes
form_text (one x) = side_text x
form_text (between x y) = side_text x ++ b'~' ∷ side_text y

abbrev pub IsSide : Side → Type 0
IsSide (letter a) = IsLetter a
IsSide (letters a b) = IsLetter a × IsLetter b

abbrev pub IsForm : Form → Type 0
IsForm (one x) = IsSide x
IsForm (between x y) = IsSide x × IsSide y

-- The first and the last key of an interval. A lower end of one letter begins at `-`, an upper
-- one stops at `z`.
abbrev pub first_key : Side → ℕ × ℕ
first_key (letter a) = (a, b'-')
first_key (letters a b) = (a, b)

abbrev pub last_key : Side → ℕ × ℕ
last_key (letter a) = (a, b'z')
last_key (letters a b) = (a, b)

abbrev pub lower : Form → ℕ × ℕ
lower (one x) = first_key x
lower (between x y) = first_key x

abbrev pub upper : Form → ℕ × ℕ
upper (one x) = last_key x
upper (between x y) = last_key y

-- A range of one of the forms is read as the interval between its first and its last key.
pub range_to_index-form_text :
    (x : Form) (l r : ℕ)
    → IsForm x
    → range_to_index (some (form_text x)) l r
      ≡ done (true, index_of (lower x).0 (lower x).1, index_of (upper x).0 (upper x).1)
unfolding range_to_index
range_to_index-form_text (one (letter a)) l r h = ground arith
range_to_index-form_text (one (letters a b)) l r h = ground arith
range_to_index-form_text (between (letter a) (letter b)) l r h = ground arith
range_to_index-form_text (between (letter a) (letters b c)) l r h = ground arith
range_to_index-form_text (between (letters a b) (letter c)) l r h = ground arith
range_to_index-form_text (between (letters a b) (letters c d)) l r h = ground arith
