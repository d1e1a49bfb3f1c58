-- ===== src/Api/Uploads/FileNames.antt =====
-- Names of uploaded files: what apps/api/repositories.py asks of `pathlib.Path`, its preview of a
-- text file, and the size as the summary of a material shows it.
use aipy.Prelude.{
  ℕ, String, refl, inl, inr, Bool, true, false, not, Option, none, some, List, [], ◌+◌, ◌*◌, ◌/◌,
  ◌%◌, ◌≡◌, ◌&&◌, ◌||◌, ◌∷◌, ◌==◌, if◌then◌else◌, ltb, leb, Bool-cases, any, keep, find, All,
  is_blank, fstring, is_space, take_text, has_char, after_last, before_last, prefix_first, split_by,
  string_eq, nat_eq,
}
use Prim.Native.Char.{Char, code}
use aipy.Prelude.Decimal.{decimal}

abbrev pub is_slash : Char → Bool
is_slash c = code c == b'/'

abbrev pub is_dot : Char → Bool
is_dot c = code c == b'.'

abbrev pub last_or : String → List String → String
last_or s [] = s
last_or s (t ∷ parts) = last_or t parts

-- `Path(s).name` on POSIX: the last part that is neither empty nor a single dot.
unfoldable pub path_name : String → String
path_name s =
    last_or "" (keep (λ (part : String). not (is_blank part || part == ".")) (split_by is_slash s))

-- `Path(s).suffix` and `Path(s).stem`: a dot that leads or ends the name is none of a suffix.
abbrev pub splits : String → Bool
splits name =
    has_char is_dot name
    && (not (is_blank (before_last is_dot name)) && not (is_blank (after_last is_dot name)))

unfoldable pub suffix : String → String
unfolding path_name
suffix s =
    let name = path_name s in
    if splits name then fstring ("." ∷ after_last is_dot name ∷ []) else ""

unfoldable pub stem : String → String
unfolding path_name
stem s = let name = path_name s in if splits name then before_last is_dot name else name

-- `s.lower() == key`, for a key of lower ASCII letters without the letter k, to which the Kelvin
-- sign would fall.
abbrev pub lower_code : ℕ → ℕ
lower_code c = if leb b'A' c && leb c b'Z' then c + 32 else c

abbrev pub lowers_to : String → String → Bool
lowers_to String.[] String.[] = true
lowers_to (String.◌∷◌ c s) (String.◌∷◌ d key) = lower_code (code c) == code d && lowers_to s key
lowers_to String.[] (String.◌∷◌ d key) = false
lowers_to (String.◌∷◌ c s) String.[] = false

-- `UPLOAD_TYPES`
abbrev pub upload_types : List (String × String)
upload_types =
    (".pdf", "PDF")
    ∷ (".doc", "DOCX")
    ∷ (".docx", "DOCX")
    ∷ (".xls", "XLSX")
    ∷ (".xlsx", "XLSX")
    ∷ (".csv", "CSV")
    ∷ (".md", "Markdown")
    ∷ (".txt", "文本")
    ∷ (".log", "文本")
    ∷ (".html", "网页")
    ∷ (".htm", "网页")
    ∷ (".json", "JSON")
    ∷ (".yaml", "YAML")
    ∷ (".yml", "YAML")
    ∷ (".png", "图片")
    ∷ (".jpg", "图片")
    ∷ (".jpeg", "图片")
    ∷ (".gif", "图片")
    ∷ (".webp", "图片")
    ∷ (".zip", "压缩包")
    ∷ []

abbrev pub type_or_file : Option (String × String) → String
type_or_file none = "文件"
type_or_file (some e) = e.1

-- `UPLOAD_TYPES.get(Path(name).suffix.lower(), "文件")`
abbrev pub upload_type : String → String
upload_type name =
    type_or_file (find (λ (e : String × String). lowers_to (suffix name) e.0) upload_types)

-- `TEXTUAL_SUFFIXES`
abbrev pub textual_suffixes : List String
textual_suffixes =
    ".txt" ∷ ".md" ∷ ".csv" ∷ ".json" ∷ ".html" ∷ ".htm" ∷ ".log" ∷ ".yaml" ∷ ".yml" ∷ []

abbrev pub join_words : List String → String
join_words [] = ""
join_words (s ∷ []) = s
join_words (s ∷ t ∷ parts) = fstring (s ∷ " " ∷ join_words (t ∷ parts) ∷ [])

-- `" ".join(decoded.split())[:280]`
abbrev pub preview_of : Option String → String
preview_of none = ""
preview_of (some decoded) =
    take_text 280
      (join_words (keep (λ (word : String). not (is_blank word)) (split_by is_space decoded)))

-- `_text_preview`; the argument is `data.decode("utf-8")`, where a `UnicodeDecodeError` is `none`.
unfoldable pub text_preview : Option String → String → String
unfolding suffix
text_preview decoded filename =
    if any (lowers_to (suffix filename)) textual_suffixes then preview_of decoded else ""

-- `a / b` rounded to a whole number, a half to the even one, as `:.0f` writes an exact quotient.
abbrev pub round_half_even : ℕ → ℕ → ℕ
round_half_even a b =
    if ltb (2 * (a % b)) b
    then a / b
    else if ltb b (2 * (a % b))
    then a / b + 1
    else a / b + a / b % 2

-- `_human_size`
unfoldable pub human_size : ℕ → String
unfolding decimal
human_size size =
    if ltb size 1024
    then fstring (decimal size ∷ " B" ∷ [])
    else if ltb size 1048576
    then fstring (decimal (round_half_even size 1024) ∷ " KB" ∷ [])
    else (let tenths = round_half_even (size * 10) 1048576 in
        fstring (decimal (tenths / 10) ∷ "." ∷ decimal (tenths % 10) ∷ " MB" ∷ []))

abbrev IsFlat : String → Type 0
IsFlat s = has_char is_slash s ≡ false

prefix_first-IsFlat :
    (c : Char) (parts : List String)
    → is_slash c ≡ false
    → All IsFlat parts
    → All IsFlat (prefix_first c parts)
prefix_first-IsFlat c [] h k = (rw h refl, tt)
prefix_first-IsFlat c (s ∷ parts) h (k, ks) = (rw (h, k) refl, ks)

split_by-IsFlat : (s : String) → All IsFlat (split_by is_slash s)
split_by-IsFlat String.[] = (refl, tt)
split_by-IsFlat (String.◌∷◌ c s) = elim (Bool-cases (is_slash c)) [
  | inl hit ↦ rw hit (refl, split_by-IsFlat s)
  | inr miss ↦ rw miss (prefix_first-IsFlat c (split_by is_slash s) miss (split_by-IsFlat s))
]

last_or-keep-IsFlat :
    (p : String → Bool) (s : String) (parts : List String)
    → IsFlat s
    → All IsFlat parts
    → IsFlat (last_or s (keep p parts))
last_or-keep-IsFlat p s [] h k = h
last_or-keep-IsFlat p s (t ∷ parts) h (k, ks) = elim (Bool-cases (p t)) [
  | inl hit ↦ rw hit (last_or-keep-IsFlat p t parts k ks)
  | inr miss ↦ rw miss (last_or-keep-IsFlat p s parts h ks)
]

-- The name of a path has no directory in it.
pub path_name-IsFlat : (s : String) → has_char is_slash (path_name s) ≡ false
unfolding path_name
path_name-IsFlat s = last_or-keep-IsFlat _ "" (split_by is_slash s) refl (split_by-IsFlat s)
