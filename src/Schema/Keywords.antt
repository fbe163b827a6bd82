-- ===== src/Schema/Keywords.antt =====
-- `is_rust_keyword` of wide-log-macros/src/codegen.rs.
use wide_log.Prelude.{Bool, true, false, List, [], ◌∷◌, Str, chars, str_eq, if◌then◌else◌}

-- The patterns of its `matches!`.
abbrev pub keywords : List Str
keywords =
    chars "as"
    ∷ chars "break"
    ∷ chars "const"
    ∷ chars "continue"
    ∷ chars "crate"
    ∷ chars "else"
    ∷ chars "enum"
    ∷ chars "extern"
    ∷ chars "false"
    ∷ chars "fn"
    ∷ chars "for"
    ∷ chars "if"
    ∷ chars "impl"
    ∷ chars "in"
    ∷ chars "let"
    ∷ chars "loop"
    ∷ chars "match"
    ∷ chars "mod"
    ∷ chars "move"
    ∷ chars "mut"
    ∷ chars "pub"
    ∷ chars "ref"
    ∷ chars "return"
    ∷ chars "self"
    ∷ chars "Self"
    ∷ chars "static"
    ∷ chars "struct"
    ∷ chars "super"
    ∷ chars "trait"
    ∷ chars "true"
    ∷ chars "type"
    ∷ chars "unsafe"
    ∷ chars "use"
    ∷ chars "where"
    ∷ chars "while"
    ∷ chars "async"
    ∷ chars "await"
    ∷ chars "dyn"
    ∷ chars "abstract"
    ∷ chars "become"
    ∷ chars "box"
    ∷ chars "do"
    ∷ chars "final"
    ∷ chars "macro"
    ∷ chars "override"
    ∷ chars "priv"
    ∷ chars "typeof"
    ∷ chars "unsized"
    ∷ chars "virtual"
    ∷ chars "yield"
    ∷ chars "try"
    ∷ chars "union"
    ∷ []

unfoldable pub is_one_of : Str → List Str → Bool
is_one_of s [] = false
is_one_of s (k ∷ ks) = if str_eq k s then true else is_one_of s ks

unfoldable pub is_rust_keyword : Str → Bool
unfolding is_one_of
is_rust_keyword s = is_one_of s keywords
