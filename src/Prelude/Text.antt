-- ===== src/Prelude/Text.antt =====
-- Python's methods of `str` that the program calls, on ASCII text.
use Prim.Native.Nat.{ℕ, ◌+◌, ◌-◌, compare, Ordering}
use Prim.Native.Char.{Char, char, code}
use Prim.Native.String.{String, [], ◌∷◌}
use mathlib.Core.Path.{◌≡◌, refl, ap}
use mathlib.Core.Bool.{Bool, true, false, ◌&&◌, ◌||◌}
use native.Mathlib.Omega.{arith}
use mathlib.Core.Option.{Option, none, some}
use mathlib.Core.List as L
use mathlib.Core.List.{List}
use lemur.Prelude.Tests.{leb, nat_beq, if◌then◌else◌}

-- `chr(n)`, for the small `n` that it is called with.
chr : (n : ℕ) (o : Ordering) → compare n 55296 ≡ o → Char
chr n Ordering.lt e = char n (rw e tt)
chr n Ordering.eq e = char 0 tt
chr n Ordering.gt e = char 0 tt

lower_char : Char → Char
unfolding chr
lower_char c =
    let n = code c in
    if leb b'A' n && leb n b'Z' then chr (n + 32) (compare (n + 32) 55296) refl else c

-- `s.lower()`
unfoldable pub lower : String → String
unfolding lower_char
lower [] = []
lower (c ∷ s) = lower_char c ∷ lower s

-- The ASCII characters that `str.split()` takes for white space.
abbrev is_space : ℕ → Bool
is_space n = leb 9 n && leb n 13 || leb 28 n && leb n 32

upper_char : Char → Char
unfolding chr
upper_char c =
    let n = code c in
    if leb b'a' n && leb n b'z' then chr (n - 32) (compare (n - 32) 55296) refl else c

-- `s.upper()`
unfoldable pub upper : String → String
unfolding upper_char
upper [] = []
upper (c ∷ s) = upper_char c ∷ upper s

-- `s.split(c)[0]`, by the number of the character `c`.
unfoldable pub before : ℕ → String → String
before n [] = []
before n (c ∷ s) = let rest = before n s in if nat_beq (code c) n then [] else c ∷ rest

push : String → List String → List String
push [] ws = ws
push (c ∷ w) ws = L.◌∷◌ (c ∷ w) ws

snoc : String → Char → String
snoc [] d = d ∷ []
snoc (c ∷ s) d = c ∷ snoc s d

split_from : String → String → List String
unfolding push snoc
split_from w [] = push w L.[]
split_from w (c ∷ s) =
    let stop = push w (split_from [] s) in
    let go = split_from (snoc w c) s in if is_space (code c) then stop else go

-- `s.split()`
unfoldable pub split : String → List String
unfolding split_from
split s = split_from [] s

-- How often a character occurs, by its number.
unfoldable pub occurrences : ℕ → String → ℕ
occurrences n [] = 0
occurrences n (c ∷ s) = (if nat_beq (code c) n then 1 else 0) + occurrences n s

-- `t.startswith(s)`
unfoldable pub starts : String → String → Bool
starts [] t = true
starts (c ∷ s) [] = false
starts (c ∷ s) (d ∷ t) = nat_beq (code c) (code d) && starts s t

-- `s in t` for two texts.
unfoldable pub occurs : String → String → Bool
unfolding starts
occurs s [] = starts s []
occurs s (c ∷ t) = starts s (c ∷ t) || occurs s t

abbrev pub concat : String → String → String
concat [] t = t
concat (c ∷ s) t = c ∷ concat s t

-- `not s`
abbrev pub is_empty : String → Bool
is_empty [] = true
is_empty (c ∷ s) = false

pub is_empty-concat : (s t : String) → is_empty (concat s t) ≡ (is_empty s && is_empty t)
is_empty-concat [] t = refl
is_empty-concat (c ∷ s) t = refl

-- `"".join(texts)`
abbrev pub join : List String → String
join L.[] = []
join (L.◌∷◌ s texts) = concat s (join texts)

pub starts-concat : (s t : String) → starts s (concat s t) ≡ true
unfolding starts
starts-concat [] t = refl
starts-concat (c ∷ s) t = ground (arith, starts-concat s t)

starts-occurs : (s u : String) → starts s u ≡ true → occurs s u ≡ true
unfolding occurs
starts-occurs s [] h = h
starts-occurs s (c ∷ u) h = rw h refl

pub occurs-concat-left : (s t : String) → occurs s (concat s t) ≡ true
unfolding occurs starts
occurs-concat-left s t = starts-occurs s (concat s t) (starts-concat s t)

pub occurs-concat-right : (s t u : String) → occurs s u ≡ true → occurs s (concat t u) ≡ true
unfolding occurs starts
occurs-concat-right s [] u h = h
occurs-concat-right s (c ∷ t) u h = ground (arith, occurs-concat-right s t u h)

-- `s.encode("utf-8")`, on ASCII text.
abbrev pub codes : String → List ℕ
codes [] = L.[]
codes (c ∷ s) = L.◌∷◌ (code c) (codes s)

-- `len(s)`
abbrev pub len : String → ℕ
len [] = 0
len (c ∷ s) = len s + 1

abbrev pub cons_left : Char → String × String → String × String
cons_left c (root, last) = (c ∷ root, last)

-- What `s.split(c)` has before the last part, joined again, and the last part; none where the
-- character of the number is not there.
unfoldable pub split_at_last : ℕ → String → Option (String × String)
split_at_last n [] = none
split_at_last n (c ∷ s) = elim (split_at_last n s) [
  | some parts ↦ some (cons_left c parts)
  | none ↦ if nat_beq (code c) n then some ([], s) else none
]

pub split_at_last-concat :
    (n : ℕ) (c : Char) (root last : String)
    → code c ≡ n
    → split_at_last n last ≡ none
    → split_at_last n (concat root (c ∷ last)) ≡ some (root, last)
unfolding split_at_last
split_at_last-concat n c [] last e h = ground (arith, h, e)
split_at_last-concat n c (d ∷ root) last e h = rw (split_at_last-concat n c root last e h) refl

pub concat_empty : (s : String) → concat s [] ≡ s
concat_empty [] = refl
concat_empty (c ∷ s) = ap (λ t. c ∷ t) (concat_empty s)
