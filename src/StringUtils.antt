-- ===== src/StringUtils.antt =====
-- Text as the list of its bytes (src/StringUtils.cc, include/fimex/StringUtils.h).
pub mod Tokens
pub mod Affixes
pub mod Join
pub mod Trim
pub mod Split
use Prim.Native.Char.{code}
use mathlib.Core.List.{reverse}
use fimex.Prelude.{
  drop, ltb, ◌-◌, zero, length, ◌||◌, ◌++◌, suc, ℕ, ◌+◌, ◌≡◌, refl, Bool, true, false, ◌&&◌, List,
  [], ◌∷◌, String, arith, leb, ◌==◌, if◌then◌else◌,
}

abbrev pub Bytes : Type 0
Bytes = List ℕ

-- The bytes of an ASCII literal.
abbrev pub codes : String → Bytes
codes (String.◌∷◌ letter text) = code letter ∷ codes text
codes String.[] = []

-- std::string::operator==
unfoldable pub bytes_eq : Bytes → Bytes → Bool
bytes_eq [] [] = true
bytes_eq (x ∷ xs) (y ∷ ys) = x == y && bytes_eq xs ys
bytes_eq _ _ = false

-- std::tolower of the "C" locale
unfoldable pub tolower : ℕ → ℕ
tolower c = if leb b'A' c && leb c b'Z' then c + 32 else c

unfoldable pub string2lower_case : Bytes → Bytes
unfolding tolower
string2lower_case [] = []
string2lower_case (c ∷ s) = tolower c ∷ string2lower_case s

pub tolower_idem : (byte : ℕ) → tolower (tolower byte) ≡ tolower byte
unfolding tolower
tolower_idem byte = ground arith

pub string2lower_case_idem :
    (s : Bytes) → string2lower_case (string2lower_case s) ≡ string2lower_case s
unfolding string2lower_case
string2lower_case_idem [] = refl
string2lower_case_idem (c ∷ s) = ground (arith, string2lower_case_idem s)

-- std::string::find(char) as a test
unfoldable pub has_byte : Bytes → ℕ → Bool
has_byte [] c = false
has_byte (x ∷ s) c = x == c || has_byte s c

-- A position in a text is the text from there on; npos is the empty text.
-- str.find_first_not_of(delimiters, pos)
unfoldable pub find_first_not_of : Bytes → Bytes → Bytes
find_first_not_of delimiters [] = []
find_first_not_of delimiters (c ∷ s) =
    if has_byte delimiters c then find_first_not_of delimiters s else c ∷ s

-- str.find_first_of(delimiters, pos)
unfoldable pub find_first_of : Bytes → Bytes → Bytes
find_first_of delimiters [] = []
find_first_of delimiters (c ∷ s) =
    if has_byte delimiters c then c ∷ s else find_first_of delimiters s

-- str.substr(lastPos, pos - lastPos) for the next delimiter `pos` from `lastPos` on
unfoldable pub token_at : Bytes → Bytes → Bytes
token_at delimiters [] = []
token_at delimiters (c ∷ s) = if has_byte delimiters c then [] else c ∷ token_at delimiters s

-- The loop of tokenize at lastPos. The fuel bounds the number of rounds.
unfoldable pub tokenize_from : ℕ → Bytes → Bytes → List Bytes
tokenize_from zero delimiters last_pos = []
tokenize_from (suc fuel) delimiters [] = []
tokenize_from (suc fuel) delimiters (c ∷ s) =
    token_at delimiters (c ∷ s)
    ∷ tokenize_from fuel delimiters
        (find_first_not_of delimiters (find_first_of delimiters (c ∷ s)))

-- As many rounds as the text has bytes are enough.
unfoldable pub tokenize : Bytes → Bytes → List Bytes
tokenize s delimiters = tokenize_from (length s) delimiters (find_first_not_of delimiters s)

-- The loop of split_any at `previous`; the last text goes to the end. The fuel bounds the number of
-- rounds.
unfoldable pub split_from : ℕ → Bytes → Bytes → List Bytes
unfolding token_at find_first_of
split_from zero delims s = []
split_from (suc fuel) delims s =
    token_at delims s
    ∷ elim (find_first_of delims s) [ [] ↦ [] | _ ∷ rest ↦ split_from fuel delims rest ]

-- As many rounds as the text has bytes, and one, are enough.
unfoldable pub split_any : Bytes → Bytes → List Bytes
unfolding split_from
split_any str delims = split_from (suc (length str)) delims str

-- trim: the text from its first to its last byte that is no white space
unfoldable pub trim : Bytes → Bytes → Bytes
trim s ws = reverse (find_first_not_of ws (reverse (find_first_not_of ws s)))

-- std::string::compare(pos, sub.size(), sub) == 0, as the test of a prefix from `pos` on
unfoldable pub has_prefix : Bytes → Bytes → Bool
has_prefix [] s = true
has_prefix (c ∷ sub) [] = false
has_prefix (c ∷ sub) (x ∷ s) = x == c && has_prefix sub s

unfoldable pub starts_or_ends_with : Bytes → Bytes → ℕ → Bool
starts_or_ends_with txt sub start_compare =
    if length sub == 0
    then true
    else (if ltb (length txt) (length sub) then false else has_prefix sub (drop start_compare txt))

unfoldable pub starts_with : Bytes → Bytes → Bool
unfolding starts_or_ends_with
starts_with txt start = starts_or_ends_with txt start 0

-- The difference of the lengths is used only where it is not negative.
unfoldable pub ends_with : Bytes → Bytes → Bool
unfolding starts_or_ends_with
ends_with txt end = starts_or_ends_with txt end (length txt - length end)

unfoldable pub replace_all_copy : Bytes → ℕ → ℕ → Bytes
replace_all_copy [] thys that = []
replace_all_copy (c ∷ s) thys that = (if c == thys then that else c) ∷ replace_all_copy s thys that

-- ESCAPE_THESE
abbrev pub escape_these : Bytes
escape_these = codes "*?\\+.()[]{}|^$"

-- regex_escape of a byte and of a text: what is written out
unfoldable pub regex_escape_char : ℕ → Bytes
regex_escape_char ch = if has_byte escape_these ch then b'\\' ∷ ch ∷ [] else ch ∷ []

unfoldable pub regex_escape : Bytes → Bytes
unfolding regex_escape_char
regex_escape [] = []
regex_escape (ch ∷ s) = regex_escape_char ch ++ regex_escape s
