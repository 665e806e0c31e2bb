-- ===== src/Tests/TextRuns.antt =====
-- Text functions on small texts.
use fimex.StringUtils.Tokens.{tokenize-joined, AllTokens, without, joined}
use fimex.StringUtils.{
  token_at, find_first_of, tokenize_from, codes, has_byte, has_prefix, find_first_not_of, trim,
  ends_with, replace_all_copy, tokenize, regex_escape,
}
use fimex.Prelude.{[], ◌∷◌, ◌≡◌, refl, true}

tokens_run : tokenize (codes "  a,bc ") (codes ", ") ≡ codes "a" ∷ codes "bc" ∷ []
unfolding tokenize tokenize_from find_first_of find_first_not_of has_byte token_at
tokens_run = refl

trim_run : trim (codes "  a b ") (codes " ") ≡ codes "a b"
unfolding trim find_first_not_of has_byte
trim_run = refl

ends_run : ends_with (codes "data.nc") (codes ".nc") ≡ true
unfolding ends_with has_prefix
ends_run = refl

escape_run : regex_escape (codes "a.nc") ≡ codes "a\\.nc"
unfolding regex_escape has_byte
escape_run = refl

replace_run : replace_all_copy (codes "a/b") b'/' b'_' ≡ codes "a_b"
unfolding replace_all_copy
replace_run = refl

tokenize-joined_example :
    (joined (tokenize (codes " a,b") (codes ", ")) ≡ without (codes ", ") (codes " a,b"))
    × AllTokens (codes ", ") (tokenize (codes " a,b") (codes ", "))
tokenize-joined_example = tokenize-joined (codes " a,b") (codes ", ")
