-- ===== src/Prelude/Texts.antt =====
-- Texts as the program takes them apart: character by character.

use Prim.Native.Char.{Char, code}
use Prim.Native.String.{String}
use mathlib.Core.Bool.{Bool, true, false, ◌&&◌, ◌||◌}
use mathlib.Core.Option.{Option, none, some}
use mathlib.Core.List.{List, [], ◌∷◌}
use Prim.Native.Nat.{ℕ, zero, suc, ◌≤◌}
use mathlib.Core.Path.{◌≡◌}
use native.Mathlib.Omega.{arith}
use Prim.Native.String
use aipy.Prelude.Tests.{leb, if◌then◌else◌}

-- `not s`
abbrev pub is_blank : String → Bool
is_blank String.[] = true
is_blank (String.◌∷◌ c s) = false

-- `a or b` on texts.
abbrev pub or_else : String → String → String
or_else a b = if is_blank a then b else a

-- `o or s`, where the left side may be `None`.
abbrev pub given : Option String → String → String
given none s = s
given (some t) s = or_else t s

abbrev pub is_lower : Char → Bool
is_lower c = leb b'a' (code c) && leb (code c) b'z'

abbrev pub is_digit : Char → Bool
is_digit c = leb b'0' (code c) && leb (code c) b'9'

-- An f-string, as the list of its parts.
abbrev pub fstring : List String → String
fstring [] = ""
fstring (s ∷ parts) = String.◌++◌ s (fstring parts)

-- What `str.strip` removes: the characters of `str.isspace`.
abbrev pub is_space : Char → Bool
is_space c =
    between 9 13
    || (between 28 32
        || (at 133
            || (at 160
                || (at 5760
                    || (between 8192 8202
                        || (between 8232 8233 || (at 8239 || (at 8287 || at 12288))))))))
  where
    between : ℕ → ℕ → Bool
    between lo hi = leb lo (code c) && leb (code c) hi

    at : ℕ → Bool
    at n = between n n

-- `s.lstrip`, `s.rstrip` and `s.strip`, of the characters that a test picks.
abbrev pub lstrip_by : (Char → Bool) → String → String
lstrip_by p String.[] = ""
lstrip_by p (String.◌∷◌ c s) = let rest = lstrip_by p s in if p c then rest else String.◌∷◌ c s

abbrev pub rstrip_by : (Char → Bool) → String → String
rstrip_by p String.[] = ""
rstrip_by p (String.◌∷◌ c s) =
    let rest = rstrip_by p s in if p c && is_blank rest then "" else String.◌∷◌ c rest

abbrev pub strip_by : (Char → Bool) → String → String
strip_by p s = lstrip_by p (rstrip_by p s)

abbrev pub strip : String → String
strip = strip_by is_space

-- `len(s)` and `s[:n]`
abbrev pub text_length : String → ℕ
text_length String.[] = 0
text_length (String.◌∷◌ c s) = suc (text_length s)

abbrev pub take_text : ℕ → String → String
take_text zero s = ""
take_text (suc n) String.[] = ""
take_text (suc n) (String.◌∷◌ c s) = String.◌∷◌ c (take_text n s)

pub text_length-take_text : (n : ℕ) (s : String) → text_length (take_text n s) ≤ n
text_length-take_text zero s = omega arith
text_length-take_text (suc n) String.[] = omega arith
text_length-take_text (suc n) (String.◌∷◌ c s) = omega (arith, text_length-take_text n s)

pub is_blank-take_text :
    (n : ℕ) (s : String) → is_blank s ≡ false → is_blank (take_text (suc n) s) ≡ false
is_blank-take_text n String.[] h = h
is_blank-take_text n (String.◌∷◌ c s) h = h

pub is_blank-or_else : (a b : String) → is_blank b ≡ false → is_blank (or_else a b) ≡ false
is_blank-or_else String.[] b h = h
is_blank-or_else (String.◌∷◌ c s) b h = ground arith

-- `s.rsplit(mark, maxsplit=1)[-1]`: what follows the last character that a test picks.
abbrev pub has_char : (Char → Bool) → String → Bool
has_char p String.[] = false
has_char p (String.◌∷◌ c s) = p c || has_char p s

abbrev pub after_last : (Char → Bool) → String → String
after_last p String.[] = ""
after_last p (String.◌∷◌ c s) =
    let rest = after_last p s in if has_char p s then rest else if p c then s else String.◌∷◌ c s

-- What stands before the last such character.
abbrev pub before_last : (Char → Bool) → String → String
before_last p String.[] = ""
before_last p (String.◌∷◌ c s) =
    let rest = before_last p s in
    if has_char p s then String.◌∷◌ c rest else if p c then "" else String.◌∷◌ c s

-- The stretches between such characters, the empty ones too.
abbrev pub prefix_first : Char → List String → List String
prefix_first c [] = String.◌∷◌ c "" ∷ []
prefix_first c (s ∷ parts) = String.◌∷◌ c s ∷ parts

abbrev pub split_by : (Char → Bool) → String → List String
split_by p String.[] = "" ∷ []
split_by p (String.◌∷◌ c s) =
    let rest = split_by p s in if p c then "" ∷ rest else prefix_first c rest

pub or_else-given : (o : Option String) (s : String) → or_else (given o s) s ≡ given o s
or_else-given none s = ground arith
or_else-given (some t) s = ground arith
