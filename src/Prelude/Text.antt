-- ===== src/Prelude/Text.antt =====
-- Go strings that the program edits, as lists of code points, and `strings.TrimSpace`,
-- `strings.ReplaceAll` of one space, `strings.ToLower` and `strings.EqualFold` on them. The Unicode
-- case tables are a parameter: `lower` maps one code point, `fold` names its case-folding orbit.
use Prim.Native.Char.{code}
use Prim.Native.Nat.{ℕ}
use Prim.Native.String.{String}
use mathlib.Core.Path.{◌≡◌, refl}
use mathlib.Core.Bool.{Bool, true, false, ◌&&◌, ◌||◌}
use mathlib.Core.List.{List, [], ◌∷◌, map}
use mathlib.Core.Logic.{◌↔◌}
use native.Mathlib.Omega.{arith}
use even_flow.Prelude.Tests.{leb, nat_eq, if◌then◌else◌, Eq}

abbrev pub Text : Type 0
Text = List ℕ

-- A literal's code points.
abbrev pub text : String → Text
text String.[] = []
text (String.◌∷◌ c s) = code c ∷ text s

abbrev pub text_eq : Text → Text → Bool
text_eq [] [] = true
text_eq (a ∷ s) (b ∷ t) = nat_eq a b && text_eq s t
text_eq [] (b ∷ t) = false
text_eq (a ∷ s) [] = false

text_eq_sound : (s t : Text) → text_eq s t ≡ true → s ≡ t
text_eq_sound [] [] h = refl
text_eq_sound [] (b ∷ t) h = cc
text_eq_sound (a ∷ s) [] h = cc
text_eq_sound (a ∷ s) (b ∷ t) h = ground (arith, text_eq_sound s t)

text_eq_refl : (s : Text) → text_eq s s ≡ true
text_eq_refl [] = refl
text_eq_refl (a ∷ s) = ground (arith, text_eq_refl s)

pub text_eq_iff : (s t : Text) → (text_eq s t ≡ true) ↔ (s ≡ t)
text_eq_iff s t = (text_eq_sound s t, λ e. rw e (text_eq_refl t))

instance abbrev pub text_Eq : Eq Text
text_Eq = record {
  same = text_eq;
  same_refl = λ x. (text_eq_iff x x).1 refl;
  same_sound = λ x y h. (text_eq_iff x y).0 h;
}

abbrev pub is_empty : Text → Bool
is_empty [] = true
is_empty (c ∷ s) = false

-- `unicode.IsSpace`
unfoldable pub is_space : ℕ → Bool
is_space c =
    leb 0x9 c && leb c 0xd
    || nat_eq c 0x20
    || nat_eq c 0x85
    || nat_eq c 0xa0
    || nat_eq c 0x1680
    || leb 0x2000 c && leb c 0x200a
    || nat_eq c 0x2028
    || nat_eq c 0x2029
    || nat_eq c 0x202f
    || nat_eq c 0x205f
    || nat_eq c 0x3000

trim_left : Text → Text
trim_left [] = []
trim_left (c ∷ s) = let rest = trim_left s in if is_space c then rest else c ∷ s

trim_right : Text → Text
trim_right [] = []
trim_right (c ∷ s) = let rest = trim_right s in if is_space c && is_empty rest then [] else c ∷ rest

unfoldable pub trim_space : Text → Text
unfolding trim_left trim_right is_space
trim_space s = trim_right (trim_left s)

-- `strings.ReplaceAll(s, " ", "-")`
unfoldable pub dash_spaces : Text → Text
dash_spaces = map λ c. if nat_eq c b' ' then b'-' else c

pub record Unicode : Type 0 where
  pub lower : ℕ → ℕ
  pub fold : ℕ → ℕ

-- `strings.ToLower`
abbrev pub to_lower : Unicode → Text → Text
to_lower u = map u.lower

-- `strings.EqualFold`
abbrev pub equal_fold : Unicode → Text → Text → Bool
equal_fold u s t = text_eq (map u.fold s) (map u.fold t)

-- The case tables on ASCII, the identity elsewhere.
abbrev ascii_lower : ℕ → ℕ
ascii_lower c = if leb b'A' c && leb c b'Z' then Prim.Native.Nat.◌+◌ c 32 else c

abbrev pub ascii : Unicode
ascii = record { lower = ascii_lower; fold = ascii_lower }
