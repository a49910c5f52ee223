-- ===== src/Base/Strings.antt =====
-- Text as a list of UTF-16 code units, with the string methods that the source calls.
-- `to_lower` maps the letters A to Z, and U+0130, the one letter that becomes longer; host names are
-- ASCII once a URL is parsed.
use Prim.Native.Nat.{ℕ, ◌+◌, ◌-◌, ◌*◌, ◌≤◌}
use Prim.Native.Char.{code}
use Prim.Native.String.{String}
use mathlib.Core.Path.{◌≡◌, refl}
use mathlib.Core.Logic.{◌↔◌}
use mathlib.Core.Bool.{Bool, true, false, ◌&&◌, ◌||◌}
use mathlib.Core.List.{List, [], ◌∷◌, reverse, reverse-cons, ◌++◌}
use native.Mathlib.Omega.{arith}
use open_webbridge.Base.Tests.{leb, ◌==◌, if◌then◌else◌, Eq, ==_iff}
use open_webbridge.Base.Lists.{length, drop}

abbrev pub Text : Type 0
Text = List ℕ

-- A literal of the source.
abbrev pub lit : String → Text
lit String.[] = []
lit (String.◌∷◌ c s) = code c ∷ lit s

-- `a === b`
unfoldable pub text_eq : Text → Text → Bool
text_eq [] [] = true
text_eq [] (_ ∷ _) = false
text_eq (_ ∷ _) [] = false
text_eq (x ∷ xs) (y ∷ ys) = (x == y) && text_eq xs ys

text_eq→eq : (a b : Text) → text_eq a b ≡ true → a ≡ b
unfolding text_eq
text_eq→eq [] [] h = refl
text_eq→eq [] (y ∷ ys) h = cc
text_eq→eq (x ∷ xs) [] h = cc
text_eq→eq (x ∷ xs) (y ∷ ys) h = ground (arith, text_eq→eq xs ys)

pub text_eq_refl : (a : Text) → text_eq a a ≡ true
unfolding text_eq
text_eq_refl [] = refl
text_eq_refl (x ∷ xs) = ground (arith, text_eq_refl xs)

pub text_eq_iff : (a b : Text) → (text_eq a b ≡ true) ↔ (a ≡ b)
text_eq_iff a b = (text_eq→eq a b, λ e. rw e (text_eq_refl b))

instance abbrev pub text_keys : Eq Text
text_keys = record { beq = text_eq; beq_iff = text_eq_iff }

instance abbrev pub number_keys : Eq ℕ
number_keys = record { beq = λ a b. a == b; beq_iff = ==_iff }

-- A text is falsy exactly when it is empty.
abbrev pub is_empty : Text → Bool
is_empty [] = true
is_empty (_ ∷ _) = false

-- U+0130, and the small i with the dot above that it becomes.
abbrev dotted : ℕ
dotted = 304

abbrev undotted : Text
undotted = 105 ∷ 775 ∷ []

lower_unit : ℕ → Text
lower_unit c =
    if leb b'A' c && leb c b'Z' then (c + 32) ∷ [] else if c == dotted then undotted else c ∷ []

unfoldable pub to_lower : Text → Text
unfolding lower_unit
to_lower [] = []
to_lower (c ∷ s) = lower_unit c ++ to_lower s

-- WhiteSpace and LineTerminator of ECMAScript.
unfoldable pub is_space : ℕ → Bool
is_space c =
    (leb 9 c && leb c 13)
    || (c == 32)
    || (c == 160)
    || (c == 0x1680)
    || (leb 0x2000 c && leb c 0x200a)
    || (c == 0x2028)
    || (c == 0x2029)
    || (c == 0x202f)
    || (c == 0x205f)
    || (c == 0x3000)
    || (c == 0xfeff)

unfoldable pub trim_start : Text → Text
unfolding is_space
trim_start [] = []
trim_start (c ∷ s) = let rest = trim_start s in if is_space c then rest else c ∷ s

unfoldable pub trim : Text → Text
unfolding trim_start
trim s = reverse (trim_start (reverse (trim_start s)))

-- `s.startsWith(t)`
unfoldable pub starts_with : Text → Text → Bool
starts_with _ [] = true
starts_with [] (_ ∷ _) = false
starts_with (x ∷ xs) (y ∷ ys) = (x == y) && starts_with xs ys

-- `s.endsWith(t)`: the last `t.length` units are `t`.
unfoldable pub ends_with : Text → Text → Bool
unfolding text_eq
ends_with s t = leb (length t) (length s) && text_eq (drop (length s - length t) s) t

-- `s.includes(t)`
unfoldable pub includes : Text → Text → Bool
unfolding starts_with
includes [] t = starts_with [] t
includes (x ∷ xs) t = starts_with (x ∷ xs) t || includes xs t

length-lower_unit : (c : ℕ) (s : Text) → length (lower_unit c ++ s) ≤ 2 + length s
unfolding lower_unit
length-lower_unit c s = ground arith

-- A text in small letters is at most twice as long.
pub length-to_lower : (s : Text) → length (to_lower s) ≤ 2 * length s
unfolding to_lower
length-to_lower [] = omega arith
length-to_lower (c ∷ s) = omega (arith, length-to_lower s, length-lower_unit c (to_lower s))

length-trim_start : (s : Text) → length (trim_start s) ≤ length s
unfolding trim_start
length-trim_start [] = omega arith
length-trim_start (c ∷ s) = ground (arith, length-trim_start s)

length-snoc : (s : Text) (c : ℕ) → length (s ++ c ∷ []) ≡ length s + 1
length-snoc [] c = refl
length-snoc (d ∷ s) c = omega (arith, length-snoc s c)

length-reverse : (s : Text) → length (reverse s) ≡ length s
length-reverse [] = refl
length-reverse (c ∷ s) =
    rw (reverse-cons c s) (omega (arith, length-snoc (reverse s) c, length-reverse s))

pub length-trim : (s : Text) → length (trim s) ≤ length s
unfolding trim
length-trim s = omega (
  arith,
  length-reverse (trim_start (reverse (trim_start s))),
  length-trim_start (reverse (trim_start s)),
  length-reverse (trim_start s),
  length-trim_start s,
)

to_lower_test : to_lower (lit "WWW.Example") ≡ lit "www.example"
unfolding to_lower
to_lower_test = refl

to_lower_dotted_test : to_lower (304 ∷ []) ≡ 105 ∷ 775 ∷ []
unfolding to_lower
to_lower_dotted_test = refl

trim_test : trim (lit "  a b ") ≡ lit "a b"
unfolding trim
trim_test = refl
