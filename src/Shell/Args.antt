-- ===== src/Shell/Args.antt =====
-- The arguments of commands in kernel-x86/src/shell.rs: `parse_n_flag`, and what the handlers use of
-- the core library on them.
use package.rustix_os.Prelude.{
  ℕ, ◌+◌, ◌-◌, ◌*◌, ◌^◌, leb, ltb, ◌==◌, ◌&&◌, if◌then◌else◌, Option, none, some, List, [], ◌∷◌,
  ◌++◌,
}
use package.rustix_os.Prelude.Codes.{codes}
use package.rustix_os.Vfs.Inode.{Text, text_eq}

-- `args.join(" ")`.
abbrev pub join_words : List Text → Text
join_words [] = []
join_words (w ∷ []) = w
join_words (w ∷ x ∷ ws) = w ++ b' ' ∷ join_words (x ∷ ws)

abbrev pub digits : ℕ → Text → Option ℕ
digits n [] = some n
digits n (c ∷ s) =
    if leb b'0' c && leb c b'9' && ltb (n * 10 + (c - b'0')) (2 ^ 64)
    then digits (n * 10 + (c - b'0')) s
    else none

-- `parse::<usize>()`: digits, with a plus before them or not, of a number below 2 ^ 64.
abbrev pub parse_usize : Text → Option ℕ
parse_usize [] = none
parse_usize (c ∷ []) = digits 0 (c ∷ [])
parse_usize (c ∷ d ∷ s) = if c == b'+' then digits 0 (d ∷ s) else digits 0 (c ∷ d ∷ s)

abbrev pub unwrap_or : Option ℕ → ℕ → ℕ
unwrap_or none default = default
unwrap_or (some n) default = n

abbrev pub first_arg : List Text → Option Text
first_arg [] = none
first_arg (a ∷ args) = some a

unfoldable pub parse_n_flag : List Text → ℕ → ℕ × Option Text
unfolding text_eq
parse_n_flag [] default = (default, none)
parse_n_flag (a ∷ []) default = (default, some a)
parse_n_flag (a ∷ b ∷ args) default =
    if text_eq a (codes "-n")
    then (unwrap_or (parse_usize b) default, first_arg args)
    else (default, some a)

abbrev pub or_default : List Text → Text → Text
or_default [] path = path
or_default (a ∷ args) path = a
